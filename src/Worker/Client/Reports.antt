-- ===== src/Worker/Client/Reports.antt =====
-- What the master (src/master/api_mappers.cpp, src/master/control_service.cpp) makes of the reports of
-- src/worker/agent_client.cpp.
use distributed_computing.Prelude.{
  ◌≡◌, refl, ap, ◌∙◌, Option, none, some, List, [], ◌∷◌, Bytes, codes, ℤ, str_eq, if◌then◌else◌,
}
use distributed_computing.Json.{JsonLib, IsJsonValues}
use distributed_computing.Json.Fields.{
  layer, layers, mapped, or_else, if_some-layer, field-layers_new,
}
use distributed_computing.Common.Numbers.{IsInt}
use distributed_computing.Common.StringUtils.{sanitize_utf8_lossy}
use distributed_computing.Broker.Status.{TaskState, task_state_to_api}
use distributed_computing.Broker.Status.Spelling.{task_state_round_trip}
use distributed_computing.Master.Mappers.Parse.{
  need, accepted, ◌>>=◌, field_with, optional_int, optional_non_empty_string_field,
  parse_task_status_update,
}
use distributed_computing.Master.Mappers.Print.{object}
use distributed_computing.Worker.Client.{status_payload}

-- A text that is empty counts as missing.
abbrev pub non_empty : Option Bytes → Option Bytes
non_empty none = none
non_empty (some text) = if str_eq text [] then none else some text

abbrev pub IsIntIfAny : Option ℤ → Type 0
IsIntIfAny none = Unit
IsIntIfAny (some n) = IsInt n

module _ (j : JsonLib) (laws : IsJsonValues j) where
  open j use {Json, field, string, number, empty_object, is_string, is_number_integer}

  abbrev pub report_fields :
      Bytes → Option ℤ → Option Bytes → Option Bytes → Option Bytes → List (Bytes × Option Json)
  report_fields state exit_code started_at finished_at error_message =
      (codes "state", some (string state))
      ∷ (codes "exit_code", mapped number exit_code)
      ∷ (codes "started_at", mapped string started_at)
      ∷ (codes "finished_at", mapped string finished_at)
      ∷ (codes "error_message", mapped (λ text. string (sanitize_utf8_lossy text)) error_message)
      ∷ []

  status_payload-layers :
      (state : Bytes) (code : Option ℤ) (started finished message : Option Bytes)
      → status_payload j state code started finished message
        ≡ layers j (report_fields state code started finished message) empty_object
  unfolding status_payload object
  status_payload-layers state code started finished message =
      if_some-layer j (λ text. string (sanitize_utf8_lossy text)) (codes "error_message") message _
      ∙ ap
          (layer j (codes "error_message")
            (mapped (λ text. string (sanitize_utf8_lossy text)) message))
          (if_some-layer j string (codes "finished_at") finished _
            ∙ ap (layer j (codes "finished_at") (mapped string finished)) (
                if_some-layer j string (codes "started_at") started _
                ∙ ap (layer j (codes "started_at") (mapped string started))
                    (if_some-layer j number (codes "exit_code") code _)))

  text_field :
      (v : Json) (key : Bytes) (o : Option Bytes)
      → field v key ≡ or_else (mapped string o) none
      → optional_non_empty_string_field j v key ≡ non_empty o
  unfolding optional_non_empty_string_field field_with
  text_field v key none h = rw (h, optional_non_empty_string_field, field_with) refl
  text_field v key (some s) h =
      rw
        (
          h,
          optional_non_empty_string_field,
          field_with,
          laws.is_string-string s,
          laws.get_string-string s,
        )
        refl

  pub int_field :
      (v : Json) (key : Bytes) (o : Option ℤ)
      → IsIntIfAny o
      → field v key ≡ or_else (mapped number o) none
      → optional_int j v key ≡ o
  unfolding field_with
  int_field v key none fits h = rw (h, optional_int, field_with) refl
  int_field v key (some n) fits h =
      rw (h, optional_int, field_with, laws.is_number_integer-number n)
        (ap some (laws.get_int-number n fits))

  -- The text of a state, read back.
  state_field :
      (v : Json) (s : TaskState)
      → field v (codes "state") ≡ some (string (task_state_to_api s))
      → field_with j is_string v (codes "state") ≡ some (string (task_state_to_api s))
  unfolding field_with
  state_field v s h = rw (h, field_with, laws.is_string-string (task_state_to_api s)) refl

  parse-fields :
      (v : Json) (s : TaskState) (code : Option ℤ) (started finished message : Option Bytes)
      → field v (codes "state") ≡ some (string (task_state_to_api s))
      → IsIntIfAny code
      → field v (codes "exit_code") ≡ or_else (mapped number code) none
      → field v (codes "started_at") ≡ or_else (mapped string started) none
      → field v (codes "finished_at") ≡ or_else (mapped string finished) none
      → field v (codes "error_message") ≡ or_else (mapped string message) none
      → parse_task_status_update j v
        ≡ accepted (record {
          state = s;
          exit_code = code;
          started_at = non_empty started;
          finished_at = non_empty finished;
          error_message = non_empty message;
        })
  unfolding parse_task_status_update
  parse-fields v s code started finished message h0 fits h1 h2 h3 h4 =
      rw (state_field v s h0, need, ◌>>=◌)
        (rw (laws.get_string-string (task_state_to_api s), (task_state_round_trip s).1)
          (rw
            (
              int_field v (codes "exit_code") code fits h1,
              text_field v (codes "started_at") started h2,
              text_field v (codes "finished_at") finished h3,
              text_field v (codes "error_message") message h4,
            )
            refl))

  sanitized_message :
      (message : Option Bytes)
      → or_else (mapped (λ text. string (sanitize_utf8_lossy text)) message) none
        ≡ or_else (mapped string (mapped sanitize_utf8_lossy message)) none
  sanitized_message none = refl
  sanitized_message (some text) = refl

  -- The master reads a report of the worker as it was meant: the state, the exit code, and the texts
  -- that are not empty, the message repaired.
  pub parse-status_payload :
      (s : TaskState) (code : Option ℤ) (started finished message : Option Bytes)
      → IsIntIfAny code
      → parse_task_status_update j
          (status_payload j (task_state_to_api s) code started finished message)
        ≡ accepted (record {
          state = s;
          exit_code = code;
          started_at = non_empty started;
          finished_at = non_empty finished;
          error_message = non_empty (mapped sanitize_utf8_lossy message);
        })
  unfolding str_eq
  parse-status_payload s code started finished message fits =
      let fields = report_fields (task_state_to_api s) code started finished message in
      ap (parse_task_status_update j)
        (status_payload-layers (task_state_to_api s) code started finished message)
      ∙ parse-fields (layers j fields empty_object) s code started finished
          (mapped sanitize_utf8_lossy message) (field-layers_new j laws fields (codes "state")) fits
          (field-layers_new j laws fields (codes "exit_code"))
          (field-layers_new j laws fields (codes "started_at"))
          (field-layers_new j laws fields (codes "finished_at"))
          (field-layers_new j laws fields (codes "error_message") ∙ sanitized_message message)
