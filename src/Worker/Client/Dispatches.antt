-- ===== src/Worker/Client/Dispatches.antt =====
-- What src/worker/agent_client.cpp makes of the tasks that src/master/api_mappers.cpp prints.
use distributed_computing.Prelude.{
  ◌≤◌, ◌≡◌, refl, ap, ◌∙◌, inl, inr, Option, none, some, List, [], ◌∷◌, map, Bytes, codes, pos,
  str_eq, keep, All, if◌then◌else◌, Bool-cases,
}
use distributed_computing.Json.{JsonLib, IsJsonValues}
use distributed_computing.Json.Fields.{
  layer, layers, mapped, or_else, if_some-layer, field-layers_new,
}
use distributed_computing.Common.Numbers.{to_string, to_string_long, int64_max}
use distributed_computing.Broker.Types.{TaskDispatch}
use distributed_computing.Master.Mappers.Parse.{accepted, ◌>>=◌, field_with, object_or_empty}
use distributed_computing.Master.Mappers.Print.{object, task_dispatch_to_json}
use distributed_computing.Worker.Client.{DispatchedTask, read_item, read_items, need_string}
use distributed_computing.Worker.Client.Reports.{IsIntIfAny, int_field}

module _ (j : JsonLib) where
  open j use {
    Json, field, string, number, empty_object, array, is_string, is_object, is_array, is_null,
    is_number_integer, items, get_string,
  }

  -- The strings of an array.
  abbrev pub strings_of : Json → List Bytes
  strings_of args = if is_array args then map get_string (keep is_string (items args)) else []

  abbrev pub as_object : Json → Json
  as_object v = if is_object v then v else empty_object

  -- The task that the worker is meant to get.
  abbrev pub as_dispatched : TaskDispatch j → DispatchedTask j
  as_dispatched d = record {
    task_id = to_string d.task_id;
    command = d.command;
    args = strings_of d.args;
    env = as_object d.env;
    timeout_sec = d.timeout_sec;
    constraints = if is_null d.constraints then empty_object else as_object d.constraints;
  }

  -- The numbers of the dispatch fit their types.
  abbrev pub FitsWire : TaskDispatch j → Type 0
  FitsWire d = (d.task_id ≤ int64_max) × IsIntIfAny d.timeout_sec

  abbrev stated_constraints : TaskDispatch j → Option Json
  stated_constraints d = if is_null d.constraints then none else some d.constraints

  abbrev dispatch_fields : TaskDispatch j → List (Bytes × Option Json)
  dispatch_fields d =
      (codes "task_id", some (number (pos d.task_id)))
      ∷ (codes "command", some (string d.command))
      ∷ (codes "args", some d.args)
      ∷ (codes "env", some d.env)
      ∷ (codes "timeout_sec", mapped number d.timeout_sec)
      ∷ (codes "constraints", stated_constraints d)
      ∷ []

  dispatch-layers :
      (d : TaskDispatch j) → task_dispatch_to_json j d ≡ layers j (dispatch_fields d) empty_object
  unfolding task_dispatch_to_json object
  dispatch-layers d = elim (Bool-cases (is_null d.constraints)) [
    | inl null ↦ rw null (if_some-layer j number (codes "timeout_sec") d.timeout_sec _)
    | inr other ↦ rw other (
        ap (layer j (codes "constraints") (some d.constraints))
          (if_some-layer j number (codes "timeout_sec") d.timeout_sec _))
  ]

  object_field :
      (v : Json) (key : Bytes) (o : Option Json)
      → field v key ≡ o
      → object_or_empty j v key ≡ elim o [ none ↦ empty_object | some x ↦ as_object x ]
  unfolding field_with
  object_field v key none h = rw (h, object_or_empty, field_with) refl
  object_field v key (some x) h = elim (Bool-cases (is_object x)) [
    | inl is ↦ rw (h, object_or_empty, field_with, is) refl
    | inr is_not ↦ rw (h, object_or_empty, field_with, is_not) refl
  ]

  constraints_field :
      (v : Json) (d : TaskDispatch j)
      → field v (codes "constraints") ≡ stated_constraints d
      → object_or_empty j v (codes "constraints") ≡ (as_dispatched d).constraints
  constraints_field v d h = elim (Bool-cases (is_null d.constraints)) [
    | inl null ↦ rw null (object_field v (codes "constraints") none (rw null at h))
    | inr other ↦
        rw other (object_field v (codes "constraints") (some d.constraints) (rw other at h))
  ]

  or_else-none : (o : Option Json) → or_else o none ≡ o
  or_else-none none = refl
  or_else-none (some v) = refl

  args_field :
      (v args : Json)
      → field v (codes "args") ≡ some args
      → elim (field_with j is_array v (codes "args")) [
        | none ↦ []
        | some l ↦ map get_string (keep is_string (items l))
      ]
        ≡ strings_of args
  unfolding field_with
  args_field v args h = elim (Bool-cases (is_array args)) [
    | inl is ↦ rw (h, field_with, is) refl
    | inr is_not ↦ rw (h, field_with, is_not) refl
  ]

  module _ (laws : IsJsonValues j) where
    read-fields :
        (v : Json) (d : TaskDispatch j)
        → FitsWire d
        → field v (codes "task_id") ≡ some (number (pos d.task_id))
        → field v (codes "command") ≡ some (string d.command)
        → field v (codes "args") ≡ some d.args
        → field v (codes "env") ≡ some d.env
        → field v (codes "timeout_sec") ≡ or_else (mapped number d.timeout_sec) none
        → field v (codes "constraints") ≡ stated_constraints d
        → read_item j v ≡ accepted (some (as_dispatched d))
    unfolding read_item to_string_long
    read-fields v d fits h0 h1 h2 h3 h4 h5 =
        rw
          (
            h0,
            h1,
            read_item,
            laws.is_number_integer-number (pos d.task_id),
            laws.is_string-string d.command,
            need_string,
            ◌>>=◌,
          )
          (rw (laws.get_int64-number d.task_id fits.0, laws.get_string-string d.command)
            (rw
              (
                args_field v d.args h2,
                object_field v (codes "env") (some d.env) h3,
                int_field j laws v (codes "timeout_sec") d.timeout_sec fits.1 h4,
                constraints_field v d h5,
              )
              refl))

    pub read_item-task_dispatch_to_json :
        (d : TaskDispatch j)
        → FitsWire d
        → read_item j (task_dispatch_to_json j d) ≡ accepted (some (as_dispatched d))
    unfolding str_eq
    read_item-task_dispatch_to_json d fits =
        let fields = dispatch_fields d in
        ap (read_item j) (dispatch-layers d)
        ∙ read-fields (layers j fields empty_object) d fits
            (field-layers_new j laws fields (codes "task_id"))
            (field-layers_new j laws fields (codes "command"))
            (field-layers_new j laws fields (codes "args"))
            (field-layers_new j laws fields (codes "env"))
            (field-layers_new j laws fields (codes "timeout_sec"))
            (field-layers_new j laws fields (codes "constraints")
              ∙ or_else-none (stated_constraints d))

    pub read_items-task_dispatch_to_json :
        (ds : List (TaskDispatch j))
        → All FitsWire ds
        → read_items j (map (task_dispatch_to_json j) ds) ≡ accepted (map as_dispatched ds)
    unfolding read_items
    read_items-task_dispatch_to_json [] fits = refl
    read_items-task_dispatch_to_json (d ∷ ds) fits =
        rw (read_item-task_dispatch_to_json d fits.0, ◌>>=◌)
          (rw (read_items-task_dispatch_to_json ds fits.1, ◌>>=◌) refl)
