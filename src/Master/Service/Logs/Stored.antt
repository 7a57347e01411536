-- ===== src/Master/Service/Logs/Stored.antt =====
-- The worker's uploads (src/worker/agent_client.cpp) through the log handlers of
-- src/master/control_service.cpp.
use distributed_computing.Prelude.{
  drop, ℕ, ◌≡◌, ◌≤◌, ◌<◌, refl, Bool, true, false, none, some, [], ◌∷◌, Bytes, codes, length, ltb,
  arith, str_eq,
}
use distributed_computing.Json.{JsonLib, IsJsonValues}
use distributed_computing.Json.Fields.{field-layers_new, is_object-layers}
use distributed_computing.Common.Numbers.{to_string, int64_max}
use distributed_computing.Common.StringUtils.{sanitize_utf8_lossy}
use distributed_computing.Master.Mappers.Ids.{parse_task_id-to_string}
use distributed_computing.Master.Mappers.Parse.{field_with}
use distributed_computing.Master.Mappers.Print.{object}
use distributed_computing.Master.LogStore.{FileSystem, Files, write_all, read_all, read_from_offset}
use distributed_computing.Master.LogStore.Places.{place}
use distributed_computing.Master.LogStore.Spec.{
  Stream, out, err, stream_name, file_name, inside, opens,
}
use distributed_computing.Master.LogStore.Refines.{read_from_offset-write_all}
use distributed_computing.Master.Service.{Option, List, Request}
use distributed_computing.Master.Service.Logs.{
  from_param, stream_param, text, stream_value, is_stream, upload_body, upload_data, stored_log,
  handle_upload_logs, handle_get_logs, handle_tail_logs,
}
use distributed_computing.Worker.Client.{log_payload}
use distributed_computing.Worker.Client.Delivery.{parse_json_body-dump}

module _ (j : JsonLib) (laws : IsJsonValues j) where
  open j use {Json, field, string, empty_object, is_string, is_object, get_string, parse, dump}

  abbrev log_fields : Bytes → Bytes → List (Bytes × Option Json)
  log_fields stream data_ =
      (codes "stream", some (string stream))
      ∷ (codes "data", some (string (sanitize_utf8_lossy data_)))
      ∷ []

  payload_stream :
      (stream data_ : Bytes) → stream_value j (log_payload j stream data_) ≡ some stream
  unfolding stream_value log_payload object str_eq
  payload_stream stream data_ =
      let fields = log_fields stream data_ in
      rw (is_object-layers j laws fields empty_object laws.is_object-empty_object, stream_value)
        (rw (field-layers_new j laws fields (codes "stream"), stream_value)
          (rw (laws.is_string-string stream) (rw (laws.get_string-string stream) refl)))

  payload_data :
      (stream data_ : Bytes)
      → field_with j is_string (log_payload j stream data_) (codes "data")
        ≡ some (string (sanitize_utf8_lossy data_))
  unfolding field_with log_payload object str_eq
  payload_data stream data_ =
      rw (field-layers_new j laws (log_fields stream data_) (codes "data"), field_with)
        (rw (laws.is_string-string (sanitize_utf8_lossy data_)) refl)

  module _ (fs : FileSystem) (root_dir : Bytes) (limit : ℕ) where
    stored_log-files :
        (text_ : Bytes) (r : Bool × Files) → (stored_log j fs root_dir limit text_ r).1 ≡ r.1
    stored_log-files text_ (true, files) = refl
    stored_log-files text_ (false, files) = refl

    is_stream-stream_name : (s : Stream) → is_stream (stream_name s) ≡ true
    unfolding is_stream str_eq
    is_stream-stream_name out = refl
    is_stream-stream_name err = refl

    upload_body-files :
        (n : ℕ) (s : Stream) (data_ : Bytes) (files : Files)
        → length (sanitize_utf8_lossy data_) ≤ limit
        → (upload_body j fs root_dir limit n (log_payload j (stream_name s) data_) files).1
          ≡ (write_all j fs root_dir
              (to_string n)
              (stream_name s)
              (sanitize_utf8_lossy data_)
              files).1
    unfolding upload_body
    upload_body-files n s data_ files short =
        let small : ltb limit (length (sanitize_utf8_lossy data_)) ≡ false =
          ground (arith, short) in
        rw (payload_stream (stream_name s) data_, upload_body)
          (rw (is_stream-stream_name s) (
            rw (payload_data (stream_name s) data_, upload_data)
              (rw (laws.get_string-string (sanitize_utf8_lossy data_))
                (rw small (stored_log-files (sanitize_utf8_lossy data_) _)))))

    -- Every read of the stream sends the text, whole or from its offset.
    abbrev pub Sends : ℕ → Stream → Bytes → Files → Type 0
    Sends n s data_ files =
        (req : Request)
        → req.id ≡ to_string n
        → stream_param req ≡ stream_name s
        → ((handle_get_logs j fs root_dir limit req files).0 ≡ text none data_)
          × ((handle_tail_logs j fs root_dir limit req files).0
              ≡ text (some (length data_)) (drop (from_param req) data_))

    reads-Sends :
        (n : ℕ) (s : Stream) (data_ : Bytes) (files : Files)
        → 0 < n
        → n ≤ int64_max
        → ((offset : ℕ)
            → (read_from_offset j fs root_dir (to_string n) (stream_name s) offset files).0
              ≡ record { exists = true; size_bytes = length data_; data_ = drop offset data_ })
        → Sends n s data_ files
    unfolding handle_get_logs handle_tail_logs read_all read_from_offset
    reads-Sends n s data_ files positive fits reads req id stream = (
      rw (id, handle_get_logs)
          (rw (parse_task_id-to_string n positive fits)
            (rw stream (rw (is_stream-stream_name s) (rw (reads 0) refl)))),
      rw (id, handle_tail_logs)
          (rw (parse_task_id-to_string n positive fits)
            (rw stream (rw (is_stream-stream_name s) (rw (reads (from_param req)) refl)))),
    )

    -- For a JSON library that keeps its laws and gives the payload back, what the worker uploads of
    -- a stream, for a task number that is positive and fits 63 bits, is what the master then sends
    -- for it, whole and from any offset: the text with its invalid bytes replaced, if that is no
    -- longer than the limit, the task lies inside the log root, and the files open.
    pub upload_logs-Sends :
        (n : ℕ) (s : Stream) (data_ : Bytes) (files : Files)
        → 0 < n
        → n ≤ int64_max
        → parse [] ≡ none
        → parse (dump (log_payload j (stream_name s) data_))
          ≡ some (log_payload j (stream_name s) data_)
        → length (sanitize_utf8_lossy data_) ≤ limit
        → inside fs root_dir n ≡ true
        → opens fs root_dir n s ≡ true
        → fs.can_read (place root_dir n (file_name s)) ≡ true
        → Sends n s
            (sanitize_utf8_lossy data_)
            (handle_upload_logs j fs root_dir limit
              (record {
                id = to_string n;
                params = [];
                body = dump (log_payload j (stream_name s) data_);
              })
              files).1
    unfolding handle_upload_logs
    upload_logs-Sends n s data_ files positive fits empty parsed short within opened readable =
        let stored =
          read_from_offset-write_all j fs root_dir n s (sanitize_utf8_lossy data_) files within
            opened readable in
        rw (parse_task_id-to_string n positive fits, handle_upload_logs)
          (rw (parse_json_body-dump j (log_payload j (stream_name s) data_) empty parsed) (
            rw (upload_body-files n s data_ files short)
              (reads-Sends n s (sanitize_utf8_lossy data_) _ positive fits stored.1)))
