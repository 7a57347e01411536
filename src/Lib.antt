-- ===== src/Lib.antt =====
-- The master of the distributed computing system: agents register with it, poll it for tasks and
-- report on them; clients create, list and cancel tasks over the same HTTP API; a maintenance thread
-- takes the tasks of silent agents back. Its state is in the tables of a broker and, for the logs, in
-- files. The worker is such an agent: it runs one task after the other and uploads their logs.
--
-- - Prelude: Boolean tests, integers and byte strings over the native numbers, shared by all.
-- - Json: the JSON library (third_party/nlohmann) as a parameter, with the laws that proofs use;
--   Fields is about objects that are built field by field.
-- - Common: src/common/string_utils.hpp (StringUtils), src/common/env.cpp (Env), the env files of
--   the two main.cpp (EnvFile), the number conversions of the standard library (Numbers) and its
--   joining of paths (Paths). A loop over bytes is structural; `to_string_loop` is on fuel `n + 1`,
--   which is more than `n` has digits.
-- - Broker: src/broker. Status is status.hpp; Types, Interface and Retry are broker.hpp: the records,
--   the abstract class as a record of calls, and `ExecuteWithRetry` over a schedule of connection
--   faults. Constraints holds the JSON helpers of the brokers. Postgres is pg_broker.cpp over the
--   tables of migrations_broker_pg: each method is a transaction, a function of the time and of the
--   tables (`Db`), under the retry loop. Postgres.Keeps and Postgres.Effects are about these.
-- - Master: src/master. Mappers is api_mappers.cpp: `Parse` reads bodies, `Print` writes them.
--   Service is control_service.cpp: each handler is a function from a request and the broker's world
--   to a response and the next world; Run serves a history of requests, maintenance rounds and waits.
--   Its Logs are the log handlers, over LogStore, which is log_store.cpp on the regular files of a disk;
--   LogStore.Spec says what it promises. Config is the reading of integer settings in
--   src/master/main.cpp, and Start the rest of it up to the construction of the broker.
-- - Worker: src/worker. Client is agent_client.cpp over any HTTP library, Client.Delivery puts it
--   together with the master's handlers. Executor is the POSIX path of task_executor.cpp over the
--   system calls (`Machine`), its loop on fuel: 20 turns for each second of a task's limit and one more
--   are enough, and a task without a limit may need any number. Config and App are worker_app.cpp: App
--   holds the reports and uploads, App.Tick the loops. Main is main.cpp.
-- - Cli: the tables of src/cli/formatters.cpp, and the global options of src/cli/main.cpp.
-- - Tests: concrete libraries, tables and histories.
--
-- Calls: a handler reads its request with Mappers, calls the broker through Interface, and prints
-- with Mappers; the broker's calls go through Retry to a transaction of Postgres. The retry loop is
-- recursion on the attempts that are left.
--
-- The server's JSON columns, casts, collation and time format are parameters (`PgLib`). Transactions
-- are serial, and a request is served as a whole before the next: interleavings of two handlers, row
-- locks and `SKIP LOCKED` are not modelled. The widths of `int` fields are not modelled, and neither
-- are log messages.
--
-- A payload is the JSON library's text of it; that the library's printer throws on text that is not
-- UTF-8 is not modelled. Log requests are no events of a history.
--
-- Not modelled: src/broker/mongo_broker.cpp, which is a second implementation of the broker's interface;
-- the rest of the command line client and the tunnel, which stand beside the master and its workers;
-- the health check, the threads, the HTTP headers and the directories, which are calls of libraries;
-- and the Windows paths.
pub mod Prelude
pub mod Common
pub mod Json
pub mod Broker
pub mod Master
pub mod Worker
pub mod Cli
pub mod Tests
