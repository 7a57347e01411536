-- ===== src/Tests/Wire.antt =====
-- The laws of the JSON values on trees, and the worker's calls delivered to the master.
use distributed_computing.Prelude.{
  map, ◌≡◌, refl, ap, true, none, some, List, [], ◌∷◌, codes, pos, arith, str_eq, str_eq_self,
  if◌then◌else◌,
}
use distributed_computing.Json.{JsonLib, IsJsonValues}
use distributed_computing.Broker.Retry.{World, returned}
use distributed_computing.Broker.Status.{TaskState.succeeded, task_state_to_api}
use distributed_computing.Broker.Types.{TaskDispatch}
use distributed_computing.Broker.Interface.{Broker}
use distributed_computing.Broker.Postgres.{pg_broker}
use distributed_computing.Broker.Postgres.Schema.{Db}
use distributed_computing.Worker.Client.{
  status_payload, post_task_status, poll_tasks, is_success, sent,
}
use distributed_computing.Common.Numbers.{to_string}
use distributed_computing.Master.Mappers.Print.{object}
use distributed_computing.Broker.Postgres.Poll.{
  poll_tasks_for_agent, candidates, eligible, fits_os, fits_int,
}
use distributed_computing.Broker.Postgres.Schema.{find_agent}
use distributed_computing.Broker.Retry.{execute_with_retry, retry, attempt}
use distributed_computing.Broker.Constraints.{parse_json_or_default, normalize_constraints}
use distributed_computing.Master.Mappers.Print.{task_dispatch_to_json}
use distributed_computing.Broker.Postgres.Poll.{task_dispatch}
use distributed_computing.Worker.Client.Dispatches.{as_dispatched}
use distributed_computing.Worker.Client.Delivery.{
  post_task_status-checked_report, poll_tasks-as_dispatched, deliver, as_report, slots_payload,
  tasks_body, reply_of,
}
use distributed_computing.Master.Mappers.Parse.{accepted, ◌>>=◌}
use distributed_computing.Master.Service.Agents.{handle_poll_tasks}
use distributed_computing.Master.Service.Tasks.{handle_update_task_status, checked_report}
use distributed_computing.Tests.{
  list_nil, object_nil, tables, Value, list_of, items_of, is_kind, field_of, trees, server, alpha,
}

is_array-list_of : (l : List Value) → is_kind 1 (list_of l) ≡ true
is_array-list_of [] = refl
is_array-list_of (v ∷ l) = refl

items_of-list_of : (l : List Value) → items_of (list_of l) ≡ l
items_of-list_of [] = refl
items_of-list_of (v ∷ l) = ap (λ r. v ∷ r) (items_of-list_of l)

pub trees-IsJsonValues : IsJsonValues trees
trees-IsJsonValues = record {
  field-empty_object = λ k. refl;
  field-set_field = λ v x k h. rw (str_eq_self k) refl;
  field-set_field_other = λ v x k l h other. rw other refl;
  is_object-empty_object = refl;
  is_object-set_field = λ v x k h. refl;
  is_array-array = is_array-list_of;
  items-array = items_of-list_of;
  is_string-string = λ s. refl;
  get_string-string = λ s. refl;
  is_number_integer-number = λ n. refl;
  get_int-number = λ n h. refl;
  get_int64-number = λ n h. refl;
}

-- A wire that tells two values apart by their first member.
abbrev pub wire : Value → Value → JsonLib
wire asked answered = record trees {
  parse = λ s.
      if str_eq s (codes "?")
      then some asked
      else if str_eq s (codes "!")
      then some answered
      else none;
  dump = λ v. elim (field_of v (codes "tasks")) [ none ↦ codes "?" | some l ↦ codes "!" ];
}

abbrev report_body : Value
report_body =
    status_payload trees (codes "succeeded") (some (pos 0)) none (some (codes "t"))
      (some (0xFF ∷ []))

abbrev line : JsonLib
line = wire report_body report_body

pub wire-IsJsonValues : (asked answered : Value) → IsJsonValues (wire asked answered)
wire-IsJsonValues asked answered = record {
  field-empty_object = λ k. refl;
  field-set_field = λ v x k h. rw (str_eq_self k) refl;
  field-set_field_other = λ v x k l h other. rw other refl;
  is_object-empty_object = refl;
  is_object-set_field = λ v x k h. refl;
  is_array-array = is_array-list_of;
  items-array = items_of-list_of;
  is_string-string = λ s. refl;
  get_string-string = λ s. refl;
  is_number_integer-number = λ n. refl;
  get_int-number = λ n h. refl;
  get_int64-number = λ n h. refl;
}

abbrev master : (j : JsonLib) → Broker j Db
master j = pg_broker j server (pos 1) (pos 1)

abbrev calm : World Db
calm = record { store = tables; clock = 10; faults = [] }

report_on_line :
    line.parse (
      line.dump (
        status_payload line
          (task_state_to_api succeeded)
          (some (pos 0))
          none
          (some (codes "t"))
          (some (0xFF ∷ []))))
    ≡ some (
        status_payload line
          (task_state_to_api succeeded)
          (some (pos 0))
          none
          (some (codes "t"))
          (some (0xFF ∷ [])))
unfolding str_eq status_payload task_state_to_api
report_on_line = refl

no_document : line.parse [] ≡ none
unfolding str_eq
no_document = refl

post_task_status-checked_report_example :
    post_task_status line
      (deliver line (handle_update_task_status line (master line)) (to_string 3))
      (to_string 3)
      (task_state_to_api succeeded)
      (some (pos 0))
      none
      (some (codes "t"))
      (some (0xFF ∷ []))
      calm
    ≡ (
      is_success (
            some (
              reply_of line
                (checked_report line
                  (master line)
                  3
                  (as_report line succeeded
                    (some (pos 0))
                    none
                    (some (codes "t"))
                    (some (0xFF ∷ [])))
                  calm).0))
          >>= sent,
      (checked_report line
          (master line)
          3
          (as_report line succeeded (some (pos 0)) none (some (codes "t")) (some (0xFF ∷ [])))
          calm).1,
    )
post_task_status-checked_report_example =
    post_task_status-checked_report line (wire-IsJsonValues report_body report_body) (master line) 3
      succeeded (some (pos 0)) none (some (codes "t")) (some (0xFF ∷ [])) calm (omega arith)
      (omega arith) (omega arith) no_document report_on_line

abbrev given : TaskDispatch trees
given = record {
  task_id = 3;
  command = codes "true";
  args = list_nil;
  env = object_nil;
  timeout_sec = none;
  constraints = object_nil;
}

abbrev polling : JsonLib
polling = wire (slots_payload trees (pos 1)) (tasks_body trees (given ∷ []))

abbrev handed : TaskDispatch polling
handed = record {
  task_id = 3;
  command = codes "true";
  args = list_nil;
  env = object_nil;
  timeout_sec = none;
  constraints = object_nil;
}

abbrev after_poll : World Db
after_poll = ((master polling).poll_tasks_for_agent alpha (pos 1) calm).1

polled_3 :
    (master polling).poll_tasks_for_agent alpha (pos 1) calm
    ≡ (returned (some (handed ∷ [])), after_poll)
unfolding poll_tasks_for_agent find_agent str_eq candidates eligible fits_os fits_int
    execute_with_retry retry attempt task_dispatch parse_json_or_default normalize_constraints
polled_3 = refl

asked_slots :
    polling.parse (polling.dump (slots_payload polling (pos 1)))
    ≡ some (slots_payload polling (pos 1))
unfolding str_eq object
asked_slots = refl

answered_tasks :
    polling.parse (polling.dump (tasks_body polling (handed ∷ [])))
    ≡ some (tasks_body polling (handed ∷ []))
unfolding str_eq object task_dispatch_to_json
answered_tasks = refl

nothing_asked : polling.parse [] ≡ none
unfolding str_eq
nothing_asked = refl

poll_tasks-as_dispatched_example :
    poll_tasks polling
      (deliver polling (handle_poll_tasks polling (master polling)) alpha)
      alpha
      (pos 1)
      calm
    ≡ (accepted (map (as_dispatched polling) (handed ∷ [])), after_poll)
poll_tasks-as_dispatched_example =
    poll_tasks-as_dispatched polling (wire-IsJsonValues _ _) (master polling) alpha (pos 1) calm
      after_poll (handed ∷ []) (omega arith) (((omega arith), tt), tt) nothing_asked asked_slots
      answered_tasks polled_3
