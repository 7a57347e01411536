-- ===== src/Worker/App/Recorded.antt =====
-- The calls of src/worker/worker_app.cpp, recorded over any network and any system calls.
use mathlib.Core.List.{append_assoc, append-nil}
use distributed_computing.Prelude.{
  ◌≡◌, refl, sym, ap, ◌∙◌, ◌⊎◌, List, [], ◌∷◌, ◌++◌, Bytes, All, All-append,
}
use distributed_computing.Json.{JsonLib}
use distributed_computing.Worker.Client.{Call, HttpClient, heartbeat_call, log_call, state_call}
use distributed_computing.Worker.Config.{WorkerConfig}
use distributed_computing.Worker.Executor.{Machine}
use distributed_computing.Worker.App.{busy, translate_worker_state}

-- The outside world with the calls made so far.
abbrev pub Recorded : Type 0 → Type 0
Recorded S = S × List Call

abbrev pub recording : {S : Type 0} → HttpClient S → HttpClient (Recorded S)
recording http call (s, log) = ((http call s).0, ((http call s).1, log ++ call ∷ []))

-- The system calls leave the log alone.
abbrev pub silent : {S : Type 0} → Machine S → Machine (Recorded S)
silent machine = record {
  utc_now = λ w. machine.utc_now w.0;
  steady_now = λ w. machine.steady_now w.0;
  create_directories = λ dir w. (machine.create_directories dir w.0, w.1);
  fork = λ child w. ((machine.fork child w.0).0, ((machine.fork child w.0).1, w.1));
  waitpid = λ w. ((machine.waitpid w.0).0, ((machine.waitpid w.0).1, w.1));
  kill = λ w. ((machine.kill w.0).0, ((machine.kill w.0).1, w.1));
  sleep_for = λ ms w. (machine.sleep_for ms w.0, w.1);
  file_size = λ path w. machine.file_size path w.0;
  read_file = λ path w. machine.read_file path w.0;
}

-- The calls between two moments, each of a kind.
abbrev pub Grew : (Call → Type 0) → List Call → List Call → Type 0
Grew P before after = (calls : List Call) × (after ≡ before ++ calls) × All P calls

module _ (P : Call → Type 0) where
  pub Grew-nothing : (log : List Call) → Grew P log log
  Grew-nothing log = ([], sym (append-nil log), tt)

  pub Grew-call : (log : List Call) (call : Call) → P call → Grew P log (log ++ call ∷ [])
  Grew-call log call h = (call ∷ [], refl, (h, tt))

  pub Grew-Grew : (a b c : List Call) → Grew P a b → Grew P b c → Grew P a c
  Grew-Grew a b c (xs, e, h) (ys, e', h') =
      (xs ++ ys, e' ∙ ap (λ l. l ++ ys) e ∙ append_assoc a xs ys, All-append P xs ys h h')

module _ (j : JsonLib) (config : WorkerConfig) (task_id : Bytes) where
  -- What is asked while the command runs: whether the task was withdrawn; and the worker's heartbeat.
  abbrev pub IsWatch : Call → Type 0
  IsWatch call =
      (call ≡ state_call j task_id)
      ⊎ (call ≡ heartbeat_call j config.agent_id (translate_worker_state busy))

  abbrev pub IsLogUpload : Call → Type 0
  IsLogUpload call = (stream : Bytes) × (data_ : Bytes) × (call ≡ log_call j task_id stream data_)
