-- ===== src/Master/LogStore.antt =====
-- src/master/log_store.cpp, over the regular files of the disk. What the file system says of a path, and
-- the time, are a parameter; directories are not modelled. A file that exists has a size.
pub mod Places
pub mod Spec
pub mod Refines
pub mod Contained
use distributed_computing.Prelude.{
  ℕ, ◌+◌, Bool, true, false, not, ◌&&◌, ◌||◌, Option, none, some, List, [], ◌∷◌, Bytes, codes, ℤ,
  pos, length, drop, leb, look, put, str_eq, if◌then◌else◌,
}
use distributed_computing.Json.{JsonLib}
use distributed_computing.Common.Paths.{path_join}
use distributed_computing.Master.Mappers.Print.{object}

abbrev pub Files : Type 0
Files = List (Bytes × Bytes)

pub record FileSystem : Type 0 where
  -- The components of `weakly_canonical`, if it gives no error.
  pub weakly_canonical : Bytes → Option (List Bytes)
  -- Whether a stream on the path opens for writing, and for reading where the file exists.
  pub can_write : Bytes → Bool
  pub can_read : Bytes → Bool
  pub utc_now : Bytes

pub record Paths : Type 0 where
  pub dir : Bytes
  pub stdout_path : Bytes
  pub stderr_path : Bytes
  pub meta_path : Bytes

pub record ReadResult : Type 0 where
  pub exists : Bool
  pub size_bytes : ℕ
  pub data_ : Bytes

abbrev pub no_result : ReadResult
no_result = record { exists = false; size_bytes = 0; data_ = [] }

abbrev pub file_exists : Files → Bytes → Bool
file_exists files path = elim (look files path) [ none ↦ false | some bytes ↦ true ]

abbrev pub file_size : Files → Bytes → ℕ
file_size files path = elim (look files path) [ none ↦ 0 | some bytes ↦ length bytes ]

unfoldable pub read_file_internal : FileSystem → Files → Bytes → ℕ → ReadResult
read_file_internal fs files path offset = elim (look files path) [
  | none ↦ no_result
  | some bytes ↦ record {
    exists = true;
    size_bytes = length bytes;
    data_ =
        if leb (length bytes) offset
        then []
        else if not (fs.can_read path)
        then []
        else drop offset bytes;
  }
]

-- The loop over two paths: whether the first ends while they agree.
unfoldable pub starts_path : List Bytes → List Bytes → Bool
starts_path [] candidate = true
starts_path (a ∷ root) [] = false
starts_path (a ∷ root) (b ∷ candidate) = str_eq a b && starts_path root candidate

unfoldable pub is_path_within_root : FileSystem → Bytes → Bytes → Bool
unfolding starts_path
is_path_within_root fs root_dir path = elim (fs.weakly_canonical root_dir) [
  | none ↦ false
  | some root ↦ elim (fs.weakly_canonical path) [
    | none ↦ false
    | some candidate ↦ starts_path root candidate
  ]
]

unfoldable pub paths_for_task : Bytes → Bytes → Paths
paths_for_task root_dir task_id =
    let dir = path_join root_dir task_id in
    record {
      dir = dir;
      stdout_path = path_join dir (codes "stdout.log");
      stderr_path = path_join dir (codes "stderr.log");
      meta_path = path_join dir (codes "meta.json");
    }

-- The test at the head of `WriteAll` and of `ReadInternal`.
unfoldable pub is_contained : FileSystem → Bytes → Paths → Bool
unfolding is_path_within_root
is_contained fs root_dir paths =
    is_path_within_root fs root_dir paths.dir
    && is_path_within_root fs root_dir paths.stdout_path
    && is_path_within_root fs root_dir paths.stderr_path
    && is_path_within_root fs root_dir paths.meta_path

unfoldable pub target_of : Paths → Bytes → Bytes
target_of paths stream =
    if str_eq stream (codes "stderr") then paths.stderr_path else paths.stdout_path

module _ (j : JsonLib) (fs : FileSystem) (root_dir : Bytes) where
  open j use {Json, dump_indented, empty_object, string, number, boolean}

  -- The lambda `add_entry`.
  abbrev pub entry_for : Files → Bytes → Json
  entry_for files path =
      object j
        ((codes "pathpp", string path)
          ∷ (codes "exists", boolean (file_exists files path))
          ∷ (codes "size_bytes", number (pos (file_size files path)))
          ∷ [])
        empty_object

  unfoldable pub metadata : Bytes → Paths → Files → Json
  unfolding object
  metadata task_id paths files =
      object j
        ((codes "task_id", string task_id)
          ∷ (codes "root_dir", string root_dir)
          ∷ (codes "updated_at", string fs.utc_now)
          ∷ (codes "stdout", entry_for files paths.stdout_path)
          ∷ (codes "stderr", entry_for files paths.stderr_path)
          ∷ [])
        empty_object

  unfoldable pub refresh_metadata : Bytes → Paths → Files → Files
  unfolding metadata
  refresh_metadata task_id paths files =
      if fs.can_write paths.meta_path
      then put files paths.meta_path (dump_indented (metadata task_id paths files))
      else files

  unfoldable pub write_all : Bytes → Bytes → Bytes → Files → Bool × Files
  unfolding paths_for_task is_contained target_of refresh_metadata
  write_all task_id stream data_ files =
      let paths = paths_for_task root_dir task_id in
      if not (is_contained fs root_dir paths)
      then (false, files)
      else if not (fs.can_write (target_of paths stream))
      then (false, files)
      else (true, refresh_metadata task_id paths (put files (target_of paths stream) data_))

  unfoldable pub read_internal : Bytes → Bytes → ℕ → Files → ReadResult × Files
  unfolding paths_for_task is_contained target_of refresh_metadata read_file_internal
  read_internal task_id stream offset files =
      let paths = paths_for_task root_dir task_id in
      if not (is_contained fs root_dir paths) then (no_result, files) else (
        read_file_internal fs files (target_of paths stream) offset,
        refresh_metadata task_id paths files,
      )

  unfoldable pub read_all : Bytes → Bytes → Files → ReadResult × Files
  unfolding read_internal
  read_all task_id stream = read_internal task_id stream 0

  unfoldable pub read_from_offset : Bytes → Bytes → ℕ → Files → ReadResult × Files
  unfolding read_internal
  read_from_offset = read_internal
