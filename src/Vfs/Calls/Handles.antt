-- ===== src/Vfs/Calls/Handles.antt =====
-- kernel/vfs.c: open files. A call on a descriptor does what the call on the path does that it was
-- opened with.
use pro_os.Prelude.{
  ℕ, ◌<◌, ◌≡◌, ◌⊎◌, inl, inr, refl, ap, Bool, true, false, not, Option, none, some, List, [], arith,
  leb, ◌==◌, if◌then◌else◌, length, get_or, set, get_or-set_self, Bool-cases, Option-cases,
}
use pro_os.Prelude.Arrays.{find_index, find_index-Found}
use pro_os.Prelude.Int.{ℤ, pos, negsuc, failure, success}
use pro_os.Vfs.{max_path}
use pro_os.Vfs.Mounts.{Ops}
use pro_os.Vfs.Calls.{
  Handle, Vfs, no_handle, max_open_files, lookup, ops_at, read_with, write_with, read_at, write_at,
  read_path, write_file, write_internal,
}

-- The mount and the path of an open file.
unfoldable pub target_of : Handle → Option (ℕ × List ℕ)
target_of h = elim h.mount [ none ↦ none | some i ↦ some (i, h.relative) ]

module _ {S : Type 0} where
  -- `vfs_open`: the file system can read or write.
  unfoldable pub can_open : Option (Ops S) → Bool
  can_open none = false
  can_open (some ops) = elim ops.read [
    | some f ↦ true
    | none ↦ elim ops.write [ some f ↦ true | none ↦ false ]
  ]

  take_handle : ℕ → List ℕ → Vfs S → Option ℕ → ℤ × Vfs S
  take_handle i rel v none = (failure, v)
  take_handle i rel v (some fd) =
      if leb max_path (length rel)
      then (failure, record v { handles = set v.handles fd no_handle })
      else (
        pos fd,
        record v {
          handles = set v.handles fd (record { used = true; mount = some i; relative = rel });
        },
      )

  open_at : Vfs S → Option (ℕ × List ℕ) → ℤ × Vfs S
  open_at v none = (failure, v)
  open_at v (some (i, rel)) =
      if not (can_open (ops_at v i))
      then (failure, v)
      else take_handle i rel v (find_index (λ h. not h.used) v.handles)

  -- `vfs_open`
  unfoldable pub open_file : List ℕ → Vfs S → ℤ × Vfs S
  unfolding open_at take_handle can_open
  open_file path v = open_at v (lookup path v)

  -- `get_handle`
  unfoldable pub get_handle : ℤ → Vfs S → Option ℕ
  get_handle (negsuc n) v = none
  get_handle (pos fd) v =
      if leb max_open_files fd
      then none
      else if (get_or v.handles fd no_handle).used
      then some fd
      else none

  unfoldable pub target : Vfs S → Option ℕ → Option (ℕ × List ℕ)
  target v none = none
  target v (some fd) = target_of (get_or v.handles fd no_handle)

  -- `vfs_read`, into a buffer of `size` bytes, and `vfs_write`
  unfoldable pub read : ℤ → ℕ → Vfs S → ℤ × List ℕ
  unfolding target target_of read_at read_with
  read fd size v = if size == 0 then (failure, []) else read_at v size (target v (get_handle fd v))

  unfoldable pub write : ℤ → List ℕ → Vfs S → ℤ × Vfs S
  unfolding target target_of write_at write_with
  write fd bytes v = write_at v bytes true (target v (get_handle fd v))

  close_at : Vfs S → Option ℕ → ℤ × Vfs S
  close_at v none = (failure, v)
  close_at v (some fd) = (success, record v { handles = set v.handles fd no_handle })

  -- `vfs_close`
  unfoldable pub close : ℤ → Vfs S → ℤ × Vfs S
  unfolding close_at
  close fd v = close_at v (get_handle fd v)

  -- A path that is opened: its descriptor stands for what the path leads to.
  opened_target :
      (i fd : ℕ) (rel : List ℕ) (v : Vfs S)
      → length v.handles ≡ max_open_files
      → find_index (λ h. not h.used) v.handles ≡ some fd
      → let v' : Vfs S = record v {
        handles = set v.handles fd (record { used = true; mount = some i; relative = rel });
      } in
        target v' (get_handle (pos fd) v') ≡ some (i, rel)
  unfolding target target_of get_handle
  opened_target i fd rel v l e =
      let f = find_index-Found (λ (h : Handle). not h.used) v.handles fd e in
      let new : Handle = record { used = true; mount = some i; relative = rel } in
      let at : get_or (set v.handles fd new) fd no_handle ≡ new =
        get_or-set_self v.handles fd new no_handle f.in_table in
      let small : leb max_open_files fd ≡ false = ground (arith, f.in_table, l) in
      let used : (get_or (set v.handles fd new) fd no_handle).used ≡ true =
        ap (λ (h : Handle). h.used) at in
      rw (small, used) (ap target_of at)

  -- The descriptor `fd`, in the state `v'` after the call, acts as the path does.
  abbrev pub ActsAs : List ℕ → Vfs S → ℕ → Vfs S → Type 0
  ActsAs path v fd v' =
      ((size : ℕ) → read (pos fd) size v' ≡ read_path path size v)
      × ((bytes : List ℕ)
          → ((write (pos fd) bytes v').0 ≡ (write_file path bytes v).0)
            × ((write (pos fd) bytes v').1.files ≡ (write_file path bytes v).1.files))

  opened-ActsAs :
      (path : List ℕ) (v : Vfs S) (i fd : ℕ) (rel : List ℕ)
      → lookup path v ≡ some (i, rel)
      → length v.handles ≡ max_open_files
      → find_index (λ h. not h.used) v.handles ≡ some fd
      → ActsAs path v fd (record v {
        handles = set v.handles fd (record { used = true; mount = some i; relative = rel });
      })
  unfolding read read_path write write_file write_internal ops_at
  opened-ActsAs path v i fd rel e l f =
      let t = opened_target i fd rel v l f in
      (λ size. rw (e, t) refl, λ bytes. rw (e, t) (refl, refl))

  -- With a table of 32 open files a call of `vfs_open` fails, or it gives a descriptor of the table:
  -- reading it gives what reading the path gave, and writing it does to the file systems, and
  -- answers, what writing the path did.
  pub open_file_lem :
      (path : List ℕ) (v : Vfs S)
      → length v.handles ≡ max_open_files
      → let (code, v') = open_file path v in
        (code ≡ failure)
        ⊎ ((fd : ℕ) × (code ≡ pos fd) × (fd < max_open_files) × ActsAs path v fd v')
  unfolding open_file
  open_file_lem path v l = elim (Option-cases (lookup path v)) [
    | inl n ↦ inl (rw n refl)
    | inr ((i, rel), e) ↦ elim (Bool-cases (can_open (ops_at v i))) [
      | inr no_ops ↦ inl (rw (e, no_ops) refl)
      | inl ops ↦ elim (Option-cases (find_index (λ h. not h.used) v.handles)) [
        | inl full ↦ inl (rw (e, ops, full) refl)
        | inr (fd, f) ↦ elim (Bool-cases (leb max_path (length rel))) [
          | inl long ↦ inl (rw (e, ops, f, long) refl)
          | inr short ↦
              let g = find_index-Found (λ (h : Handle). not h.used) v.handles fd f in
              rw (e, ops, f, short)
                (inr (fd, refl, omega (arith, g.in_table, l), opened-ActsAs path v i fd rel e l f))
        ]
      ]
    ]
  ]
