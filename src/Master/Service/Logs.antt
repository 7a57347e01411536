-- ===== src/Master/Service/Logs.antt =====
-- The log handlers of src/master/control_service.cpp, over the log store's files.
pub mod Stored
use distributed_computing.Prelude.{
  ℕ, Bool, not, ◌||◌, Option, none, some, List, [], ◌∷◌, Bytes, codes, pos, length, ltb, str_eq,
  if◌then◌else◌,
}
use distributed_computing.Json.{JsonLib}
use distributed_computing.Common.Numbers.{to_string, stoull}
use distributed_computing.Master.Mappers.{parse_task_id}
use distributed_computing.Master.Mappers.Parse.{Parsed, accepted, refused, field_with}
use distributed_computing.Master.Mappers.Print.{object}
use distributed_computing.Master.LogStore.{
  FileSystem, Files, ReadResult, write_all, read_all, read_from_offset,
}
use distributed_computing.Master.Service.{
  Request, Response, fail, bad_request, parse_json_body, get_query_param,
}

-- A JSON response, a text with its `X-Log-Size` if it has one, or an exception that leaves the handler.
pub data LogResponse (j : JsonLib) : Type 0 where
  json : Response j → LogResponse j
  text : Option ℕ → Bytes → LogResponse j
  uncaught : LogResponse j

-- `stream != "stdout" && stream != "stderr"` negated.
unfoldable pub is_stream : Bytes → Bool
is_stream stream = str_eq stream (codes "stdout") || str_eq stream (codes "stderr")

unfoldable pub stream_param : Request → Bytes
stream_param req = elim (get_query_param req.params (codes "stream")) [
  | none ↦ codes "stdout"
  | some stream ↦ stream
]

-- The offset of a tail: 0 where there is none, or where `std::stoull` throws.
unfoldable pub from_param : Request → ℕ
from_param req = elim (get_query_param req.params (codes "from")) [
  | none ↦ 0
  | some from ↦ elim (stoull from) [ none ↦ 0 | some offset ↦ offset ]
]

module _ (j : JsonLib) where
  open j use {Json, field, is_object, is_string, get_string}

  -- `body.value("stream", "stdout")`, which throws on what is no object and on what is no string.
  unfoldable pub stream_value : Json → Option Bytes
  stream_value body = if not (is_object body) then none else elim (field body (codes "stream")) [
    | none ↦ some (codes "stdout")
    | some v ↦ if is_string v then some (get_string v) else none
  ]

module _ (j : JsonLib) (fs : FileSystem) (root_dir : Bytes) (max_log_upload_bytes : ℕ) where
  open j use {Json, field, is_object, is_string, get_string, empty_object, string, number}

  abbrev pub invalid_task_id : Response j
  invalid_task_id = bad_request j (codes "Invalid task_id")

  abbrev pub invalid_stream : Response j
  invalid_stream = bad_request j (codes "Invalid stream")

  abbrev pub log_not_found : ℕ → Bytes → Response j
  log_not_found task_id stream = fail j 404 (codes "LOG_NOT_FOUND") (codes "Log not found") (
      object j ((codes "task_id", number (pos task_id)) ∷ (codes "stream", string stream) ∷ [])
        empty_object)

  -- What is sent for a read; `shown` is the size header.
  abbrev pub sent_log :
      ℕ → Bytes → (ReadResult → Option ℕ) → ReadResult × Files → LogResponse j × Files
  sent_log task_id stream shown (result, files) =
      if not result.exists
      then (json (log_not_found task_id stream), files)
      else (text (shown result) result.data_, files)

  unfoldable pub handle_get_logs : Request → Files → LogResponse j × Files
  unfolding is_stream read_all
  handle_get_logs req files = elim (parse_task_id req.id) [
    | none ↦ (json invalid_task_id, files)
    | some task_id ↦
        if not (is_stream (stream_param req))
        then (json invalid_stream, files)
        else sent_log task_id (stream_param req) (λ result. none)
            (read_all j fs root_dir (to_string task_id) (stream_param req) files)
  ]

  unfoldable pub handle_tail_logs : Request → Files → LogResponse j × Files
  unfolding is_stream from_param read_from_offset
  handle_tail_logs req files = elim (parse_task_id req.id) [
    | none ↦ (json invalid_task_id, files)
    | some task_id ↦
        if not (is_stream (stream_param req))
        then (json invalid_stream, files)
        else sent_log task_id (stream_param req) (λ result. some result.size_bytes)
            (read_from_offset j fs root_dir (to_string task_id) (stream_param req) (from_param req)
              files)
  ]

  abbrev pub stored_log : Bytes → Bool × Files → LogResponse j × Files
  stored_log data_ (ok, files) =
      if not ok
      then (
        json (fail j 500 (codes "LOG_WRITE_FAILED") (codes "Failed to store log") empty_object),
        files,
      )
      else (
        json (record {
          status = 200;
          body =
              object j
                ((codes "status", string (codes "ok"))
                  ∷ (codes "size_bytes", number (pos (length data_)))
                  ∷ [])
                empty_object;
        }),
        files,
      )

  -- The handler behind the stream's name.
  abbrev pub upload_data : ℕ → Bytes → Json → Files → LogResponse j × Files
  upload_data task_id stream body files = elim (field_with j is_string body (codes "data")) [
    | none ↦ (json (bad_request j (codes "Missing data")), files)
    | some v ↦
        if ltb max_log_upload_bytes (length (get_string v))
        then (
          json (
              fail j 413 (codes "PAYLOAD_TOO_LARGE") (codes "Log upload exceeds limit") (
                object j ((codes "limit_bytes", number (pos max_log_upload_bytes)) ∷ [])
                  empty_object)),
          files,
        )
        else stored_log (get_string v)
            (write_all j fs root_dir (to_string task_id) stream (get_string v) files)
  ]

  unfoldable pub upload_body : ℕ → Json → Files → LogResponse j × Files
  unfolding stream_value is_stream write_all
  upload_body task_id body files = elim (stream_value j body) [
    | none ↦ (uncaught, files)
    | some stream ↦
        if not (is_stream stream)
        then (json invalid_stream, files)
        else upload_data task_id stream body files
  ]

  unfoldable pub handle_upload_logs : Request → Files → LogResponse j × Files
  unfolding upload_body parse_json_body
  handle_upload_logs req files = elim (parse_task_id req.id) [
    | none ↦ (json invalid_task_id, files)
    | some task_id ↦ elim (parse_json_body j req.body) [
      | refused message ↦ (
        json (
            fail j 400 (codes "BAD_REQUEST") (codes "Invalid JSON")
              (object j ((codes "error", string message) ∷ []) empty_object)),
        files,
      )
      | accepted body ↦ upload_body task_id body files
    ]
  ]
