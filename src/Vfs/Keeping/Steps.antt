-- ===== src/Vfs/Keeping/Steps.antt =====
-- kernel/vfs.c: each call keeps what the file systems keep.
use pro_os.Prelude.{
  ℕ, ◌^◌, ◌<◌, Bool, true, not, ◌||◌, inl, inr, Option, none, some, List, [], ◌∷◌, leb, ◌==◌,
  length, get_or, Bool-cases, Option-cases,
}
use pro_os.Prelude.Arrays.{All, All-get_or, All-set, find_index}
use pro_os.Prelude.Int.{ℤ}
use pro_os.Ramfs.Text.{IsText}
use pro_os.Vfs.{max_path, normalize}
use pro_os.Vfs.Texts.{normalize-IsText}
use pro_os.Vfs.Mounts.{Ops, Mount, is_point, mount}
use pro_os.Vfs.Calls.{
  Alias, Handle, Vfs, no_handle, lookup, ops_at, write_at, write_internal, remove, mkdir,
}
use pro_os.Vfs.Calls.Aliases.{same_path, is_registered, slot_of, register_alias}
use pro_os.Vfs.Calls.Handles.{can_open, target, target_of, open_file, get_handle, write, close}
use pro_os.Vfs.Keeping.{
  Keeps, AllKeep, IsSound, Call, mounting, linking, opening, closing, writing_at, writing, removing,
  making, run_call, run_calls, keep_at, with_files-IsSound, with_handle-IsSound, write_with-keeps,
  remove_with-keeps, mkdir_with-keeps, lookup-IsText,
}

module _ {S : Type 0} (P : S → Type 0) where
  -- A path given to a call is a text, data are shorter than 2 ^ 31 bytes, and a file system that is
  -- mounted keeps the property.
  abbrev pub IsGiven : Call S → Type 0
  IsGiven (mounting point ops) = Keeps P ops
  IsGiven (linking source target) = IsText target
  IsGiven (opening path) = IsText path
  IsGiven (closing fd) = Unit
  IsGiven (writing_at fd bytes) = length bytes < 2 ^ 31
  IsGiven (writing path bytes replace) = IsText path × (length bytes < 2 ^ 31)
  IsGiven (removing path) = IsText path
  IsGiven (making path) = IsText path

  pub mount-AllKeep :
      (point : List ℕ) (ops : Ops S) (ms : List (Mount S))
      → Keeps P ops
      → All (λ m. AllKeep P m.ops) ms
      → All (λ m. AllKeep P m.ops) (mount point ops ms).1
  unfolding mount
  mount-AllKeep point ops ms k h = elim (Option-cases (normalize max_path point)) [
    | inl n ↦ rw n h
    | inr (path, e) ↦ elim (Option-cases (find_index (is_point path) ms)) [
      | inr (i, t) ↦ rw (e, mount) (rw t h)
      | inl f ↦ elim (Option-cases (find_index (λ m. not m.used) ms)) [
        | inl full ↦ rw (e, mount) (rw (f, mount) (rw full h))
        | inr (i, free) ↦
            rw (e, mount)
              (rw (f, mount) (rw free (All-set (λ (m : Mount S). AllKeep P m.ops) ms i _ h k)))
      ]
    ]
  ]

register-IsText :
    (source target : List ℕ) (aliases : List Alias)
    → IsText target
    → All (λ a. IsText a.target) aliases
    → All (λ a. IsText a.target) (register_alias source target aliases).1
unfolding register_alias
register-IsText source target aliases t h = elim (Option-cases (normalize max_path source)) [
  | inl n ↦ rw n h
  | inr (p, e) ↦ elim (Option-cases (normalize max_path target)) [
    | inl n ↦ rw (e, n) h
    | inr (q, f) ↦
        let bad = leb (length p) 1 || (length q == 0) || same_path p q in
        let own : Option ℕ = find_index (is_registered p) aliases in
        let free : Option ℕ = find_index (λ (a : Alias). not a.used) aliases in
        elim (Bool-cases (leb (length p) 1 || (length q == 0) || same_path p q)) [
          | inl no_alias ↦ rw (e, f) (rw no_alias h)
          | inr good ↦ elim (Option-cases (slot_of own free)) [
            | inl full ↦ rw (e, f) (rw good (rw full h))
            | inr (i, at) ↦
                rw (e, f)
                  (rw good (
                    rw at (
                      All-set (λ (a : Alias). IsText a.target) aliases i _ h
                        (normalize-IsText max_path target q f t))))
          ]
        ]
  ]
]

-- What a path or a descriptor leads to is a text.
abbrev TextTarget : Option (ℕ × List ℕ) → Type 0
TextTarget none = Unit
TextTarget (some (i, rel)) = IsText rel

target_of-Text : (h : Handle) → IsText h.relative → TextTarget (target_of h)
unfolding target_of
target_of-Text h t = elim (Option-cases h.mount) [ inl n ↦ rw n tt | inr (i, e) ↦ rw e t ]

module _ {S : Type 0} (P : S → Type 0) where
  open_file-IsSound :
      (path : List ℕ) (v : Vfs S) → IsText path → IsSound P v → IsSound P (open_file path v).1
  unfolding open_file
  open_file-IsSound path v t s = elim (Option-cases (lookup path v)) [
    | inl n ↦ rw n s
    | inr ((i, rel), e) ↦ elim (Bool-cases (can_open (ops_at v i))) [
      | inr no_ops ↦ rw (e, no_ops) s
      | inl ops ↦ elim (Option-cases (find_index (λ h. not h.used) v.handles)) [
        | inl full ↦ rw (e, ops, full) s
        | inr (fd, f) ↦ elim (Bool-cases (leb max_path (length rel))) [
          | inl long ↦ rw (e, ops, f, long) (with_handle-IsSound P v fd no_handle s tt)
          | inr short ↦
              rw (e, ops, f, short)
                (with_handle-IsSound P v fd _ s (lookup-IsText P path v i rel s t e))
        ]
      ]
    ]
  ]

  close-IsSound : (fd : ℤ) (v : Vfs S) → IsSound P v → IsSound P (close fd v).1
  unfolding close
  close-IsSound fd v s = elim (Option-cases (get_handle fd v)) [
    | inl n ↦ rw n s
    | inr (i, e) ↦ rw e (with_handle-IsSound P v i no_handle s tt)
  ]

  write_at-IsSound :
      (v : Vfs S) (bytes : List ℕ) (replace : Bool) (t : Option (ℕ × List ℕ))
      → TextTarget t
      → length bytes < 2 ^ 31
      → IsSound P v
      → IsSound P (write_at v bytes replace t).1
  unfolding write_at
  write_at-IsSound v bytes replace none t l s = s
  write_at-IsSound v bytes replace (some (i, rel)) t l s =
      with_files-IsSound P v _ s
        (write_with-keeps P (ops_at v i) v.files rel bytes replace (keep_at P v i s) t l s.files)

  target-Text : (v : Vfs S) (o : Option ℕ) → IsSound P v → TextTarget (target v o)
  unfolding target
  target-Text v none s = tt
  target-Text v (some k) s =
      target_of-Text (get_or v.handles k no_handle)
        (All-get_or (λ (x : Handle). IsText x.relative) v.handles k no_handle s.handles tt)

  lookup-Text : (path : List ℕ) (v : Vfs S) → IsSound P v → IsText path → TextTarget (lookup path v)
  lookup-Text path v s t = elim (Option-cases (lookup path v)) [
    | inl n ↦ rw n tt
    | inr ((i, rel), e) ↦ rw e (lookup-IsText P path v i rel s t e)
  ]

  write-IsSound :
      (fd : ℤ) (bytes : List ℕ) (v : Vfs S)
      → length bytes < 2 ^ 31
      → IsSound P v
      → IsSound P (write fd bytes v).1
  unfolding write
  write-IsSound fd bytes v l s =
      write_at-IsSound v bytes true (target v (get_handle fd v)) (target-Text v (get_handle fd v) s)
        l s

  write_internal-IsSound :
      (path bytes : List ℕ) (replace : Bool) (v : Vfs S)
      → IsText path
      → length bytes < 2 ^ 31
      → IsSound P v
      → IsSound P (write_internal path bytes replace v).1
  unfolding write_internal
  write_internal-IsSound path bytes replace v t l s =
      write_at-IsSound v bytes replace (lookup path v) (lookup-Text path v s t) l s

  remove-IsSound :
      (path : List ℕ) (v : Vfs S) → IsText path → IsSound P v → IsSound P (remove path v).1
  unfolding remove
  remove-IsSound path v t s = elim (Option-cases (lookup path v)) [
    | inl n ↦ rw n s
    | inr ((i, rel), e) ↦ rw e (
        with_files-IsSound P v _ s (
          remove_with-keeps P (ops_at v i) v.files rel (keep_at P v i s)
            (lookup-IsText P path v i rel s t e) s.files))
  ]

  mkdir-IsSound :
      (path : List ℕ) (v : Vfs S) → IsText path → IsSound P v → IsSound P (mkdir path v).1
  unfolding mkdir
  mkdir-IsSound path v t s = elim (Option-cases (lookup path v)) [
    | inl n ↦ rw n s
    | inr ((i, rel), e) ↦ rw e (
        with_files-IsSound P v _ s (
          mkdir_with-keeps P (ops_at v i) v.files rel (keep_at P v i s)
            (lookup-IsText P path v i rel s t e) s.files))
  ]

  run_call-IsSound : (c : Call S) (v : Vfs S) → IsGiven P c → IsSound P v → IsSound P (run_call c v)
  unfolding run_call
  run_call-IsSound (mounting point ops) v g s = record {
    files = s.files;
    mounts = mount-AllKeep P point ops v.mounts g s.mounts;
    aliases = s.aliases;
    handles = s.handles;
  }
  run_call-IsSound (linking source target) v g s = record {
    files = s.files;
    mounts = s.mounts;
    aliases = register-IsText source target v.aliases g s.aliases;
    handles = s.handles;
  }
  run_call-IsSound (opening path) v g s = open_file-IsSound path v g s
  run_call-IsSound (closing fd) v g s = close-IsSound fd v s
  run_call-IsSound (writing_at fd bytes) v g s = write-IsSound fd bytes v g s
  run_call-IsSound (writing path bytes replace) v g s =
      write_internal-IsSound path bytes replace v g.0 g.1 s
  run_call-IsSound (removing path) v g s = remove-IsSound path v g s
  run_call-IsSound (making path) v g s = mkdir-IsSound path v g s

  abbrev pub AllGiven : List (Call S) → Type 0
  AllGiven = All (IsGiven P)

  -- A property of the files that every mounted file system keeps holds after any sequence of calls,
  -- mounts of further such file systems included, whatever the calls' answers are.
  pub run_calls-IsSound :
      (cs : List (Call S)) (v : Vfs S) → AllGiven cs → IsSound P v → IsSound P (run_calls cs v)
  unfolding run_calls
  run_calls-IsSound [] v g s = s
  run_calls-IsSound (c ∷ cs) v g s =
      run_calls-IsSound cs (run_call c v) g.1 (run_call-IsSound c v g.0 s)
