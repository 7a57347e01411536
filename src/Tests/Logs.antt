-- ===== src/Tests/Logs.antt =====
-- The log store on a small disk.
use distributed_computing.Prelude.{
  drop, ◌≤◌, length, ◌≡◌, refl, true, false, none, some, List, [], ◌∷◌, Bytes, codes, arith, str_eq,
  look, if◌then◌else◌,
}
use distributed_computing.Common.Paths.{path_join}
use distributed_computing.Master.Service.{Request, get_query_param}
use distributed_computing.Common.Numbers.{to_string}
use distributed_computing.Common.StringUtils.{sanitize_utf8_lossy, is_valid_utf8}
use distributed_computing.Master.LogStore.{
  FileSystem, Files, write_all, read_internal, is_path_within_root, is_contained, starts_path,
  paths_for_task,
}
use distributed_computing.Master.LogStore.Contained.{log_store-outside}
use distributed_computing.Master.LogStore.Refines.{kept_all-promised_all, view}
use distributed_computing.Master.LogStore.Spec.{
  LogCall, upload, tail, out, err, stream_name, kept_all, promised_all, inside,
}
use distributed_computing.Master.Service.Logs.{
  text, handle_upload_logs, handle_get_logs, handle_tail_logs, from_param, stream_param,
}
use distributed_computing.Master.Service.Logs.Stored.{upload_logs-Sends}
use distributed_computing.Worker.Client.{log_payload}
use distributed_computing.Tests.{Value, trees}
use distributed_computing.Tests.Wire.{wire, wire-IsJsonValues}

abbrev secret : Bytes
secret = codes "/etc/passwd"

abbrev disk : FileSystem
disk = record {
  weakly_canonical =
      λ path. if str_eq path secret then some (codes "etc" ∷ []) else some (codes "logs" ∷ []);
  can_write = λ path. true;
  can_read = λ path. true;
  utc_now = codes "now";
}

abbrev root : Bytes
root = codes "logs"

abbrev calls : List LogCall
calls = upload 7 out (codes "abc") ∷ tail 7 err 0 ∷ upload 8 out (codes "x") ∷ tail 7 out 1 ∷ []

kept_all-promised_all_example :
    kept_all disk root trees calls [] ≡ promised_all disk root calls (view root [])
kept_all-promised_all_example =
    kept_all-promised_all trees disk root calls [] (view root []) (λ m t. refl)

secret_outside : is_path_within_root disk root secret ≡ false
unfolding is_path_within_root starts_path str_eq
secret_outside = refl

abbrev etc : Files
etc = (secret, codes "root") ∷ []

log_store-outside_example :
    (look (write_all trees disk root (codes "..") (codes "stdout") (codes "x") etc).1 secret
      ≡ look etc secret)
    × (look (read_internal trees disk root (codes "..") (codes "stdout") 0 etc).1 secret
        ≡ look etc secret)
log_store-outside_example =
    log_store-outside disk root trees (codes "..") (codes "stdout") (codes "x") 0 etc secret
      secret_outside

abbrev line : Value
line = log_payload trees (codes "stderr") (codes "no")

task_7_inside : inside disk root 7 ≡ true
unfolding is_contained is_path_within_root starts_path str_eq paths_for_task path_join to_string
task_7_inside = refl

line_parsed :
    (wire line line).parse
      ((wire line line).dump (log_payload (wire line line) (codes "stderr") (codes "no")))
    ≡ some (log_payload (wire line line) (codes "stderr") (codes "no"))
unfolding str_eq log_payload
line_parsed = refl

empty_refused : (wire line line).parse [] ≡ none
unfolding str_eq
empty_refused = refl

no_is_short : length (sanitize_utf8_lossy (codes "no")) ≤ 100
unfolding sanitize_utf8_lossy is_valid_utf8
no_is_short = omega arith

abbrev uploaded_7 : Files
uploaded_7 =
    (handle_upload_logs (wire line line) disk root 100
      (record {
        id = to_string 7;
        params = [];
        body = (wire line line).dump (log_payload (wire line line) (codes "stderr") (codes "no"));
      })
      []).1

abbrev ask_7 : Request
ask_7 = record {
  id = to_string 7;
  params = (codes "from", codes "1") ∷ (codes "stream", codes "stderr") ∷ [];
  body = [];
}

ask_7_stream : stream_param ask_7 ≡ stream_name err
unfolding stream_param get_query_param str_eq
ask_7_stream = refl

upload_logs-Sends_example :
    ((handle_get_logs (wire line line) disk root 100 ask_7 uploaded_7).0
      ≡ text none (sanitize_utf8_lossy (codes "no")))
    × ((handle_tail_logs (wire line line) disk root 100 ask_7 uploaded_7).0
        ≡ text
            (some (length (sanitize_utf8_lossy (codes "no"))))
            (drop (from_param ask_7) (sanitize_utf8_lossy (codes "no"))))
upload_logs-Sends_example =
    upload_logs-Sends (wire line line) (wire-IsJsonValues line line) disk root 100 7 err
      (codes "no") [] (omega arith) (omega arith) empty_refused line_parsed no_is_short
      task_7_inside refl refl ask_7 refl ask_7_stream
