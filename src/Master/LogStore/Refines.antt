-- ===== src/Master/LogStore/Refines.antt =====
-- src/master/log_store.cpp against what it promises.
use mathlib.Core.Path.{subst}
use distributed_computing.Prelude.{
  leb→le, drop-past, str_eq_iff, ℕ, ◌≡◌, ◌≤◌, refl, sym, ap, ◌∙◌, inl, inr, ◌==◌, ◌&&◌, not, Bool,
  true, false, some, List, [], ◌∷◌, Bytes, codes, length, drop, leb, look, put, look-put,
  look-put_other, str_eq, Bool-cases, if◌then◌else◌, ==_iff, Option-cases,
}
use distributed_computing.Json.{JsonLib}
use distributed_computing.Common.Numbers.{to_string}
use distributed_computing.Master.LogStore.{
  FileSystem, Files, no_result, Paths, paths_for_task, target_of, refresh_metadata,
  read_file_internal, write_all, read_internal, read_from_offset,
}
use distributed_computing.Master.LogStore.Places.{
  place, place_other, stdout_path-place, stderr_path-place, meta_path-place,
}
use distributed_computing.Master.LogStore.Spec.{
  Stream, out, err, stream_name, file_name, same_stream, Logs, stored, answer_of, LogCall, upload,
  tail, written, inside, opens, promised, promised_all, kept, kept_all,
}

differ : (a b : Bytes) → str_eq a b ≡ false → a ≡ b → ⊥
differ a b h e = cc (h, (str_eq_iff a b).1 e)

target-place :
    (root_dir : Bytes) (n : ℕ) (s : Stream)
    → target_of (paths_for_task root_dir (to_string n)) (stream_name s)
      ≡ place root_dir n (file_name s)
unfolding target_of str_eq
target-place root_dir n out = stdout_path-place root_dir n
target-place root_dir n err = stderr_path-place root_dir n

abbrev pub view : Bytes → Files → Logs
view root_dir files n s = look files (place root_dir n (file_name s))

view-put_meta :
    (root_dir : Bytes) (n : ℕ) (text : Bytes) (files : Files) (m : ℕ) (t : Stream)
    → view root_dir (put files (place root_dir n (codes "meta.json")) text) m t
      ≡ view root_dir files m t
unfolding str_eq
view-put_meta root_dir n text files m out = look-put_other files _ _ text (
    place_other root_dir n m (codes "meta.json") (codes "stdout.log")
      (λ e. differ (codes "meta.json") (codes "stdout.log") refl))
view-put_meta root_dir n text files m err = look-put_other files _ _ text (
    place_other root_dir n m (codes "meta.json") (codes "stderr.log")
      (λ e. differ (codes "meta.json") (codes "stderr.log") refl))

same_stream_iff : (s t : Stream) → (same_stream s t ≡ true) → s ≡ t
same_stream_iff out out h = refl
same_stream_iff err err h = refl
same_stream_iff out err h = absurd (cc h)
same_stream_iff err out h = absurd (cc h)

file_name-other : (s t : Stream) → same_stream s t ≡ false → file_name s ≡ file_name t → ⊥
unfolding str_eq
file_name-other out out h e = absurd (cc h)
file_name-other err err h e = absurd (cc h)
file_name-other out err h e = differ (codes "stdout.log") (codes "stderr.log") refl e
file_name-other err out h e = differ (codes "stderr.log") (codes "stdout.log") refl e

view-put :
    (root_dir : Bytes) (n : ℕ) (s : Stream) (text : Bytes) (files : Files) (m : ℕ) (t : Stream)
    → view root_dir (put files (place root_dir n (file_name s)) text) m t
      ≡ stored (view root_dir files) n s text m t
view-put root_dir n s text files m t = elim (Bool-cases (n == m)) [
  | inl number ↦ elim (Bool-cases (same_stream s t)) [
    | inl stream ↦
        let same : place root_dir n (file_name s) ≡ place root_dir m (file_name t) =
          cc ((==_iff n m).0 number, same_stream_iff s t stream) in
        rw (number, stream)
          (subst (λ p. look (put files (place root_dir n (file_name s)) text) p ≡ some text) same
            (look-put files (place root_dir n (file_name s)) text))
    | inr differs ↦
        rw (number, differs)
          (look-put_other files (place root_dir n (file_name s)) (place root_dir m (file_name t))
            text
            (place_other root_dir n m (file_name s) (file_name t)
              (λ e. file_name-other s t differs)))
  ]
  | inr differs ↦ rw differs (
      look-put_other files (place root_dir n (file_name s)) (place root_dir m (file_name t)) text (
        place_other root_dir n m (file_name s) (file_name t)
          (λ e d. absurd (cc (differs, (==_iff n m).1 e)))))
]

read_data :
    (readable : Bool) (offset : ℕ) (text : Bytes)
    → (if leb (length text) offset then [] else if not readable then [] else drop offset text)
      ≡ (if readable then drop offset text else [])
read_data readable offset text = elim (Bool-cases (leb (length text) offset)) [
  | inl past ↦ rw past (go readable (leb→le (length text) offset past))
  | inr within ↦ rw within (swapped readable)
]
  where
    go : (r : Bool) → length text ≤ offset → [] ≡ (if r then drop offset text else [])
    go true le = sym (drop-past offset text le)
    go false le = refl

    swapped :
        (r : Bool) → (if not r then [] else drop offset text) ≡ (if r then drop offset text else [])
    swapped true = refl
    swapped false = refl

same_stream_self : (s : Stream) → same_stream s s ≡ true
same_stream_self out = refl
same_stream_self err = refl

-- The files hold exactly the logs.
abbrev pub Shows : Bytes → Files → Logs → Type 0
Shows root_dir files logs = (m : ℕ) (t : Stream) → view root_dir files m t ≡ logs m t

module _ (j : JsonLib) (fs : FileSystem) (root_dir : Bytes) where
  abbrev paths : ℕ → Paths
  paths n = paths_for_task root_dir (to_string n)

  refreshed :
      (n : ℕ) (files : Files) (logs : Logs)
      → Shows root_dir files logs
      → Shows root_dir (refresh_metadata j fs root_dir (to_string n) (paths n) files) logs
  unfolding refresh_metadata
  refreshed n files logs shown m t = elim (Bool-cases (fs.can_write (paths n).meta_path)) [
    | inr shut ↦ rw (shut, refresh_metadata) (shown m t)
    | inl opened ↦
        rw (opened, refresh_metadata)
          (rw (meta_path-place root_dir n) (view-put_meta root_dir n _ files m t) ∙ shown m t)
  ]

  stored_view :
      (n : ℕ) (s : Stream) (text : Bytes) (files : Files) (logs : Logs)
      → Shows root_dir files logs
      → Shows root_dir (put files (place root_dir n (file_name s)) text) (stored logs n s text)
  stored_view n s text files logs shown m t =
      view-put root_dir n s text files m t
      ∙ ap (λ l. if (n == m) && same_stream s t then some text else l) (shown m t)

  -- One call: the same answer, and the files hold the new logs.
  abbrev pub Agrees : LogCall → Files → Logs → Type 0
  Agrees c files logs =
      ((kept fs root_dir j c files).0 ≡ (promised fs root_dir c logs).0)
      × Shows root_dir (kept fs root_dir j c files).1 (promised fs root_dir c logs).1

  upload-Agrees :
      (n : ℕ) (s : Stream) (text : Bytes) (files : Files) (logs : Logs)
      → Shows root_dir files logs
      → Agrees (upload n s text) files logs
  unfolding write_all
  upload-Agrees n s text files logs shown = elim (Bool-cases (inside fs root_dir n)) [
    | inr outside ↦ rw (outside, write_all) (refl, shown)
    | inl within ↦ elim (Bool-cases (opens fs root_dir n s)) [
      | inr shut ↦ rw (within, write_all) (rw (target-place root_dir n s) (rw shut (refl, shown)))
      | inl opened ↦
          rw (within, write_all)
            (rw (target-place root_dir n s) (
              rw opened (
                refl,
                refreshed n (put files (place root_dir n (file_name s)) text) (stored logs n s text)
                    (stored_view n s text files logs shown),
              )))
    ]
  ]

  read_file-answer_of :
      (path : Bytes) (offset : ℕ) (files : Files)
      → read_file_internal fs files path offset
        ≡ answer_of (fs.can_read path) offset (look files path)
  unfolding read_file_internal
  read_file-answer_of path offset files = elim (Option-cases (look files path)) [
    | inl missing ↦ rw (missing, read_file_internal) refl
    | inr (text, found) ↦
        rw (found, read_file_internal)
          (ap (λ d. record { exists = true; size_bytes = length text; data_ = d })
            (read_data (fs.can_read path) offset text))
  ]

  tail-Agrees :
      (n : ℕ) (s : Stream) (offset : ℕ) (files : Files) (logs : Logs)
      → Shows root_dir files logs
      → Agrees (tail n s offset) files logs
  unfolding read_from_offset read_internal
  tail-Agrees n s offset files logs shown = elim (Bool-cases (inside fs root_dir n)) [
    | inr outside ↦ rw (outside, read_internal) (refl, shown)
    | inl within ↦
        rw (within, read_internal)
          (rw (target-place root_dir n s) (
            rw (read_file-answer_of (place root_dir n (file_name s)) offset files)
              (rw (shown n s) (refl, refreshed n files logs shown))))
  ]

  pub call-Agrees :
      (c : LogCall) (files : Files) (logs : Logs) → Shows root_dir files logs → Agrees c files logs
  call-Agrees (upload n s text) = upload-Agrees n s text
  call-Agrees (tail n s offset) = tail-Agrees n s offset

  -- Whatever uploads and reads come in whatever order, for whatever numbered tasks, the store on the
  -- disk answers each as its promise does from the logs that the files held at the start. The
  -- metadata files never show in the answers.
  pub kept_all-promised_all :
      (calls : List LogCall) (files : Files) (logs : Logs)
      → Shows root_dir files logs
      → kept_all fs root_dir j calls files ≡ promised_all fs root_dir calls logs
  kept_all-promised_all [] files logs shown = refl
  kept_all-promised_all (c ∷ calls) files logs shown =
      let agrees = call-Agrees c files logs shown in
      rw agrees.0 (
        ap (λ rest. (promised fs root_dir c logs).0 ∷ rest)
          (kept_all-promised_all calls _ _ agrees.1))

  -- A text that the store took is read back from any offset.
  pub read_from_offset-write_all :
      (n : ℕ) (s : Stream) (data_ : Bytes) (files : Files)
      → inside fs root_dir n ≡ true
      → opens fs root_dir n s ≡ true
      → fs.can_read (place root_dir n (file_name s)) ≡ true
      → ((write_all j fs root_dir (to_string n) (stream_name s) data_ files).0 ≡ true)
        × ((offset : ℕ)
            → (read_from_offset j fs root_dir
                (to_string n)
                (stream_name s)
                offset
                (write_all j fs root_dir (to_string n) (stream_name s) data_ files).1).0
              ≡ record { exists = true; size_bytes = length data_; data_ = drop offset data_ })
  read_from_offset-write_all n s data_ files within opened readable =
      let files' = (write_all j fs root_dir (to_string n) (stream_name s) data_ files).1 in
      let w = upload-Agrees n s data_ files (view root_dir files) (λ m t. refl) in
      let wrote : (kept fs root_dir j (upload n s data_) files).0 ≡ written true =
        rw (within, opened) at w.0 in
      let shown : Shows root_dir files' (stored (view root_dir files) n s data_) =
        rw (within, opened) at w.1 in
      (
        cc wrote,
        λ offset.
            let t = tail-Agrees n s offset files' (stored (view root_dir files) n s data_) shown in
            let answer : (read_from_offset j fs root_dir (to_string n) (stream_name s) offset
                  files').0
                ≡ (if inside fs root_dir n
                    then answer_of (fs.can_read (place root_dir n (file_name s))) offset
                        (stored (view root_dir files) n s data_ n s)
                    else no_result) =
              cc t.0 in
            answer ∙ rw (within, readable, (==_iff n n).1 refl, same_stream_self s) refl,
      )
