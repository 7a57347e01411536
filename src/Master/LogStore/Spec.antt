-- ===== src/Master/LogStore/Spec.antt =====
-- What src/master/log_store.cpp promises for numbered tasks: two texts for each, written whole and read
-- from an offset. The guards are the file system's: which tasks lie inside the root, which files open.
use distributed_computing.Prelude.{
  ℕ, ◌==◌, Bool, true, false, ◌&&◌, Option, none, some, List, [], ◌∷◌, Bytes, codes, length, drop,
  if◌then◌else◌,
}
use distributed_computing.Json.{JsonLib}
use distributed_computing.Common.Numbers.{to_string}
use distributed_computing.Master.LogStore.{
  FileSystem, Files, ReadResult, no_result, paths_for_task, is_contained, write_all,
  read_from_offset,
}
use distributed_computing.Master.LogStore.Places.{place}

pub data Stream : Type 0 where
  out err : Stream

abbrev pub stream_name : Stream → Bytes
stream_name out = codes "stdout"
stream_name err = codes "stderr"

abbrev pub file_name : Stream → Bytes
file_name out = codes "stdout.log"
file_name err = codes "stderr.log"

abbrev pub same_stream : Stream → Stream → Bool
same_stream out out = true
same_stream err err = true
same_stream _ _ = false

-- The text of each stream of each task, if one was written.
abbrev pub Logs : Type 0
Logs = ℕ → Stream → Option Bytes

abbrev pub stored : Logs → ℕ → Stream → Bytes → Logs
stored logs n s data_ m t = if (n == m) && same_stream s t then some data_ else logs m t

-- What is read of a text from an offset.
abbrev pub answer_of : Bool → ℕ → Option Bytes → ReadResult
answer_of readable offset none = no_result
answer_of readable offset (some text) = record {
  exists = true;
  size_bytes = length text;
  data_ = if readable then drop offset text else [];
}

pub data LogCall : Type 0 where
  upload : ℕ → Stream → Bytes → LogCall
  tail : ℕ → Stream → ℕ → LogCall

pub data LogAnswer : Type 0 where
  written : Bool → LogAnswer
  read : ReadResult → LogAnswer

module _ (fs : FileSystem) (root_dir : Bytes) where
  abbrev pub inside : ℕ → Bool
  inside n = is_contained fs root_dir (paths_for_task root_dir (to_string n))

  abbrev pub opens : ℕ → Stream → Bool
  opens n s = fs.can_write (place root_dir n (file_name s))

  -- The promise, call by call.
  abbrev pub promised : LogCall → Logs → LogAnswer × Logs
  promised (upload n s data_) logs =
      if inside n && opens n s then (written true, stored logs n s data_) else (written false, logs)
  promised (tail n s offset) logs = (
    read (
        if inside n
        then answer_of (fs.can_read (place root_dir n (file_name s))) offset (logs n s)
        else no_result),
    logs,
  )

  abbrev pub promised_all : List LogCall → Logs → List LogAnswer
  promised_all [] logs = []
  promised_all (c ∷ cs) logs = (promised c logs).0 ∷ promised_all cs (promised c logs).1

  module _ (j : JsonLib) where
    -- The store's own answer.
    abbrev pub kept : LogCall → Files → LogAnswer × Files
    kept (upload n s data_) files =
        let (ok, files') = write_all j fs root_dir (to_string n) (stream_name s) data_ files in
        (written ok, files')
    kept (tail n s offset) files =
        let (result, files') =
          read_from_offset j fs root_dir (to_string n) (stream_name s) offset files in
        (read result, files')

    abbrev pub kept_all : List LogCall → Files → List LogAnswer
    kept_all [] files = []
    kept_all (c ∷ cs) files = (kept c files).0 ∷ kept_all cs (kept c files).1
