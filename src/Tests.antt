-- ===== src/Tests.antt =====
-- Concrete libraries, tables and requests, and the theorems applied to them.
pub mod Text
pub mod Texts
pub mod Retries
pub mod Tables
pub mod Polls
pub mod Histories
pub mod Wire
pub mod Workers
pub mod Logs
pub mod Starts
pub mod Tabular
use distributed_computing.Prelude.{
  ℕ, Bool, true, false, Option, none, some, List, [], ◌∷◌, Bytes, codes, ℤ, pos, negsuc, leb, ◌==◌,
  if◌then◌else◌, str_eq,
}
use distributed_computing.Json.{JsonLib}
use distributed_computing.Broker.Status.{
  AgentStatus.idle, AgentStatus.busy, TaskState.queued, TaskState.running, TaskState.succeeded,
}
use distributed_computing.Broker.Postgres.Schema.{AgentRow, TaskRow, AssignmentRow, Db, PgLib}

-- JSON values as trees; a list or an object grows at its front.
pub data Value : Type 0 where
  null list_nil object_nil : Value
  num : ℤ → Value
  txt : Bytes → Value
  list_cons : Value → Value → Value
  object_add : Bytes → Value → Value → Value

abbrev pub list_of : List Value → Value
list_of [] = list_nil
list_of (v ∷ l) = list_cons v (list_of l)

abbrev pub items_of : Value → List Value
items_of (list_cons v l) = v ∷ items_of l
items_of _ = []

abbrev pub field_of : Value → Bytes → Option Value
field_of (object_add k v rest) l = if str_eq k l then some v else field_of rest l
field_of _ l = none

abbrev pub entries_of : Value → List (Bytes × Value)
entries_of (object_add k v rest) = (k, v) ∷ entries_of rest
entries_of _ = []

abbrev pub is_kind : ℕ → Value → Bool
is_kind k null = k == 0
is_kind k list_nil = k == 1
is_kind k (list_cons v l) = k == 1
is_kind k object_nil = k == 2
is_kind k (object_add l v rest) = k == 2
is_kind k (num n) = k == 3
is_kind k (txt s) = k == 4

abbrev pub text_of : Value → Bytes
text_of (txt s) = s
text_of _ = []

abbrev pub number_of : Value → ℤ
number_of (num n) = n
number_of _ = pos 0

-- The documents that the requests hold.
abbrev pub parse_document : Bytes → Option Value
parse_document s =
    if str_eq s (codes "{}")
    then some object_nil
    else if str_eq s (codes "[]")
    then some list_nil
    else if str_eq s (codes "{\"free_slots\":1}")
    then some (object_add (codes "free_slots") (num (pos 1)) object_nil)
    else if str_eq s (codes "{\"command\":\"true\"}")
    then some (object_add (codes "command") (txt (codes "true")) object_nil)
    else if str_eq s (codes "{\"state\":\"Running\"}")
    then some (object_add (codes "state") (txt (codes "Running")) object_nil)
    else none

abbrev pub trees : JsonLib
trees = record {
  Json = Value;
  parse = parse_document;
  parse_error = λ s. codes "parse error";
  dump = λ v. codes "{}";
  field = field_of;
  set_field = λ v k x. object_add k x v;
  dump_indented = λ v. codes "{}";
  items = items_of;
  entries = entries_of;
  is_null = is_kind 0;
  is_object = is_kind 2;
  is_array = is_kind 1;
  is_string = is_kind 4;
  is_number_integer = is_kind 3;
  get_string = text_of;
  get_int = number_of;
  get_int64 = number_of;
  type_error = λ v. codes "type must be string";
  empty_object = object_nil;
  array = list_of;
  string = txt;
  number = num;
  boolean = λ b. if b then num (pos 1) else num (pos 0);
}

abbrev pub server : PgLib
server = record {
  jsonb = λ s. some s;
  text_field = λ s k. none;
  int_cast = λ s. none;
  timestamptz = λ s. none;
  to_char = λ t. codes "2026-01-01T00:00:00Z";
  collate_le = λ a b. true;
  sql_error = codes "ERROR";
}

abbrev pub alpha : Bytes
alpha = codes "alpha"

abbrev pub beta : Bytes
beta = codes "beta"

abbrev pub agent_of : Bytes → ℕ → AgentRow
agent_of id seen = record {
  agent_id = id;
  os = codes "linux";
  version = codes "1.0";
  resources_cpu_cores = pos 4;
  resources_ram_mb = pos 2048;
  resources_slots = pos 2;
  status = idle;
  last_heartbeat = seen;
}

-- A queued task.
abbrev pub waiting : ℕ → TaskRow
waiting id = record {
  task_id = id;
  state = queued;
  command = codes "true";
  args = codes "[]";
  env = codes "{}";
  constraints = codes "{}";
  timeout_sec = none;
  assigned_agent = none;
  created_at = id;
  started_at = none;
  finished_at = none;
  exit_code = none;
  error_message = none;
}

abbrev pub running_task : TaskRow
running_task = record (waiting 1) {
  state = running;
  assigned_agent = some alpha;
  started_at = some 5;
}

abbrev pub finished_task : TaskRow
finished_task = record (waiting 2) {
  state = succeeded;
  assigned_agent = some beta;
  finished_at = some 6;
}

abbrev pub assignment : AssignmentRow
assignment = record {
  task_id = 1;
  agent_id = alpha;
  assigned_at = 5;
  unassigned_at = none;
  reason = none;
}

-- Agent alpha runs task 1, task 2 is done, and tasks 3 and 4 wait.
abbrev pub tables : Db
tables = record {
  agents = agent_of alpha 5 ∷ agent_of beta 900000000 ∷ [];
  tasks = running_task ∷ finished_task ∷ waiting 3 ∷ waiting 4 ∷ [];
  assignments = assignment ∷ [];
  next_task_id = 5;
}
