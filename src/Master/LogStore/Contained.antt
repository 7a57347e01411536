-- ===== src/Master/LogStore/Contained.antt =====
-- The path checks of src/master/log_store.cpp.
use distributed_computing.Prelude.{
  ℕ, ◌≡◌, refl, ◌∙◌, inl, inr, ◌&&◌, not, Bool, true, false, Bytes, look, put, look-put_other,
  str_eq, str_eq_iff, Bool-cases, if◌then◌else◌, codes,
}
use distributed_computing.Json.{JsonLib}
use distributed_computing.Master.LogStore.{
  FileSystem, Files, Paths, paths_for_task, is_path_within_root, is_contained, target_of,
  refresh_metadata, write_all, read_internal,
}

all_true : (a b c d : Bool) → (a && b && c && d) ≡ true → (b ≡ true) × (c ≡ true) × (d ≡ true)
all_true true true true true h = (refl, refl, refl)
all_true true true true false h = absurd (cc h)
all_true true true false d h = absurd (cc h)
all_true true false c d h = absurd (cc h)
all_true false b c d h = absurd (cc h)

module _ (fs : FileSystem) (root_dir : Bytes) where
  within : Bytes → Bool
  within = is_path_within_root fs root_dir

  apart : (a b : Bytes) → within a ≡ true → within b ≡ false → str_eq a b ≡ false
  apart a b h k = elim (Bool-cases (str_eq a b)) [
    | inl same ↦ absurd (cc (h, k, (str_eq_iff a b).0 same))
    | inr other ↦ other
  ]

  contained :
      (paths : Paths) (stream : Bytes)
      → is_contained fs root_dir paths ≡ true
      → (within (target_of paths stream) ≡ true) × (within paths.meta_path ≡ true)
  unfolding is_contained target_of within
  contained paths stream h =
      let both =
        all_true (within paths.dir) (within paths.stdout_path) (within paths.stderr_path)
          (within paths.meta_path) h in
      elim (Bool-cases (str_eq stream (codes "stderr"))) [
        | inl error ↦ rw (error, target_of) (both.1, both.2)
        | inr other ↦ rw (other, target_of) (both.0, both.2)
      ]

  module _ (j : JsonLib) where
    refresh_elsewhere :
        (task_id : Bytes) (paths : Paths) (files : Files) (path : Bytes)
        → within paths.meta_path ≡ true
        → within path ≡ false
        → look (refresh_metadata j fs root_dir task_id paths files) path ≡ look files path
    unfolding refresh_metadata
    refresh_elsewhere task_id paths files path h k =
        elim (Bool-cases (fs.can_write paths.meta_path)) [
          | inl opened ↦
              rw (opened, refresh_metadata)
                (look-put_other files paths.meta_path path _ (apart paths.meta_path path h k))
          | inr shut ↦ rw (shut, refresh_metadata) refl
        ]

    -- `WriteAll` behind the checks.
    abbrev attempted : Bytes → Paths → Bytes → Bytes → Files → Bool × Files
    attempted task_id paths stream data_ files =
        if not (fs.can_write (target_of paths stream)) then (false, files) else (
          true,
          refresh_metadata j fs root_dir task_id paths (put files (target_of paths stream) data_),
        )

    written_elsewhere :
        (task_id : Bytes) (paths : Paths) (stream data_ : Bytes) (files : Files) (path : Bytes)
        → (within (target_of paths stream) ≡ true) × (within paths.meta_path ≡ true)
        → within path ≡ false
        → look (attempted task_id paths stream data_ files).1 path ≡ look files path
    written_elsewhere task_id paths stream data_ files path h k =
        elim (Bool-cases (fs.can_write (target_of paths stream))) [
          | inr shut ↦ rw shut refl
          | inl opened ↦ rw opened (
              refresh_elsewhere task_id paths (put files (target_of paths stream) data_) path h.1 k
              ∙ look-put_other files (target_of paths stream) path data_
                  (apart (target_of paths stream) path h.0 k))
        ]

    -- No upload and no read, whatever text stands for the task and whatever the stream, changes a file
    -- whose canonical path does not start with the canonical root.
    pub log_store-outside :
        (task_id stream data_ : Bytes) (offset : ℕ) (files : Files) (path : Bytes)
        → is_path_within_root fs root_dir path ≡ false
        → (look (write_all j fs root_dir task_id stream data_ files).1 path ≡ look files path)
          × (look (read_internal j fs root_dir task_id stream offset files).1 path
              ≡ look files path)
    unfolding write_all read_internal within
    log_store-outside task_id stream data_ offset files path k =
        let paths = paths_for_task root_dir task_id in
        elim (Bool-cases (is_contained fs root_dir paths)) [
          | inr refused ↦ rw (refused, write_all, read_internal) (refl, refl)
          | inl allowed ↦
              let h = contained paths stream allowed in
              rw (allowed, write_all, read_internal)
                (
                  written_elsewhere (task_id) paths stream data_ files path h k,
                  refresh_elsewhere task_id paths files path h.1 k,
                )
        ]
