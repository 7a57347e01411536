-- ===== src/Master/Service.antt =====
-- The shared parts of src/master/control_service.cpp: requests, responses, and the helpers of the handlers.
-- A JSON response is the value that is dumped.
pub mod Agents
pub mod Tasks
pub mod Logs
pub mod Run
use distributed_computing.Prelude.{
  ℕ, Bool, true, false, Option, none, some, List, [], ◌∷◌, Bytes, codes, ℤ, if◌then◌else◌, str_eq,
}
use distributed_computing.Json.{JsonLib}
use distributed_computing.Common.Numbers.{stoi}
use distributed_computing.Broker.Retry.{Outcome, returned, threw, World}
use distributed_computing.Master.Mappers.Parse.{Parsed, accepted, refused}
use distributed_computing.Master.Mappers.Print.{object}

-- `id` is the capture of the route's pattern.
pub record Request : Type 0 where
  pub id : Bytes
  pub params : List (Bytes × Bytes)
  pub body : Bytes

module _ (j : JsonLib) where
  open j use {Json, parse, parse_error, empty_object, string}

  pub record Response : Type 0 where
    pub status : ℕ
    pub body : Json

  unfoldable pub make_error : Bytes → Bytes → Json → Json
  unfolding object
  make_error code message details =
      object j
        ((
          codes "error",
          object j
              ((codes "code", string code)
                ∷ (codes "message", string message)
                ∷ (codes "details", details)
                ∷ [])
              empty_object,
        )
          ∷ [])
        empty_object

  unfoldable pub fail : ℕ → Bytes → Bytes → Json → Response
  fail status code message details = record {
    status = status;
    body = make_error code message details;
  }

  abbrev pub bad_request : Bytes → Response
  bad_request message = fail 400 (codes "BAD_REQUEST") message empty_object

  unfoldable pub parse_json_body : Bytes → Parsed Json
  parse_json_body body =
      if str_eq body []
      then accepted empty_object
      else elim (parse body) [ none ↦ refused (parse_error body) | some v ↦ accepted v ]

-- `req.params.find(name)`
unfoldable pub get_query_param : List (Bytes × Bytes) → Bytes → Option Bytes
get_query_param [] name = none
get_query_param ((key, value) ∷ params) name =
    if str_eq key name then some value else get_query_param params name

unfoldable pub get_query_param_int : List (Bytes × Bytes) → Bytes → ℤ → ℤ
unfolding get_query_param
get_query_param_int params name fallback = elim (get_query_param params name) [
  | none ↦ fallback
  | some value ↦ elim (stoi value) [ none ↦ fallback | some n ↦ n ]
]

-- A handler answers and leaves the broker's world changed.
abbrev pub Handler : JsonLib → Type 0 → Type 0
Handler j S = World S → Response j × World S

module _ (j : JsonLib) {S : Type 0} where
  open j use {Json, empty_object, string}

  abbrev pub answer : Response j → Handler j S
  answer res w = (res, w)

  -- `try { ... } catch (const std::exception& ex) { ... }` round a call of the broker.
  abbrev pub catch_db :
      {A : Type 0} → Outcome A × World S → (A → Handler j S) → Response j × World S
  catch_db (returned a, w) continue = continue a w
  catch_db (threw message, w) continue = (fail j 500 (codes "DB_ERROR") message empty_object, w)

  abbrev pub with_parsed : {A : Type 0} → Parsed A → (A → Handler j S) → Handler j S
  with_parsed (accepted a) continue w = continue a w
  with_parsed (refused message) continue w = (bad_request j message, w)

  abbrev pub with_json : Parsed Json → (Json → Handler j S) → Handler j S
  with_json (accepted a) continue w = continue a w
  with_json (refused message) continue w = (
    fail j 400 (codes "BAD_REQUEST") (codes "Invalid JSON")
        (object j ((codes "error", string message) ∷ []) empty_object),
    w,
  )

  abbrev pub with_some : {A : Type 0} → Option A → Response j → (A → Handler j S) → Handler j S
  with_some none otherwise continue w = (otherwise, w)
  with_some (some a) otherwise continue w = continue a w
