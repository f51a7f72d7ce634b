-- ===== src/Vfs/Keeping.antt =====
-- kernel/vfs.c: what every mounted file system keeps true, every sequence of calls keeps true.
pub mod Steps
use pro_os.Prelude.{
  ℕ, zero, suc, ◌^◌, ◌<◌, ◌≡◌, refl, ap, subst, sym, true, false, not, Bool, inl, inr, Option, none,
  some, List, [], ◌∷◌, ◌++◌, ◌+◌, arith, leb, ◌==◌, ◌||◌, if◌then◌else◌, length, get_or, set,
  Bool-cases, Option-cases,
}
use pro_os.Prelude.Arrays.{All, All-get_or, All-set, find_index}
use pro_os.Prelude.Int.{ℤ, pos, failure}
use pro_os.Ramfs.Text.{IsText}
use pro_os.Vfs.{max_path, slash, normalize}
use pro_os.Vfs.Texts.{IsText-append, IsText-drop, relative_of-IsText, normalize-IsText}
use pro_os.Vfs.Mounts.{Ops, Mount, no_mount, is_point, mount, resolve, relative_of}
use pro_os.Vfs.Mounts.Longest.{resolve_lem}
use pro_os.Vfs.Calls.{
  Alias, Handle, Vfs, no_alias, no_handle, is_alias_of, suffix_of, wants_slash, aliased,
  apply_alias, lookup, ops_at, write_with, remove_with, mkdir_with, write_internal, remove, mkdir,
}
use pro_os.Vfs.Calls.Aliases.{same_path, is_registered, slot_of, register_alias}
use pro_os.Vfs.Calls.Handles.{open_file, get_handle, write, close}

suffix_of-IsText : (n : ℕ) (path : List ℕ) → IsText path → IsText (suffix_of n path)
unfolding suffix_of
suffix_of-IsText n path h = elim (Bool-cases (get_or path n 0 == slash)) [
  | inl y ↦ rw y (IsText-drop (suc n) path h)
  | inr m ↦ rw m (IsText-drop n path h)
]

aliased-IsText :
    (path : List ℕ) (a : Alias) → IsText path → IsText a.target → IsText (aliased path a)
unfolding aliased
aliased-IsText path a h t =
    let suffix : List ℕ = suffix_of a.from_len path in
    let rest : List ℕ = if wants_slash a.target suffix then slash ∷ suffix else suffix in
    let s : IsText suffix = suffix_of-IsText a.from_len path h in
    let r : IsText rest = elim (Bool-cases (wants_slash a.target suffix)) [
      | inl y ↦ rw y (omega arith, s)
      | inr n ↦ rw n s
    ] in
    elim (Bool-cases (leb max_path (length (a.target ++ rest) + 1))) [
      | inl long ↦ rw long h
      | inr fits ↦ rw fits (IsText-append a.target rest t r)
    ]

apply_alias-IsText :
    (path : List ℕ) (aliases : List Alias)
    → IsText path
    → All (λ a. IsText a.target) aliases
    → IsText (apply_alias path aliases)
unfolding apply_alias
apply_alias-IsText path aliases h t = elim (Option-cases (find_index (is_alias_of path) aliases)) [
  | inl n ↦ rw n h
  | inr (i, e) ↦ rw e (
      aliased-IsText path (get_or aliases i no_alias) h
        (All-get_or (λ (a : Alias). IsText a.target) aliases i no_alias t tt))
]

-- The calls that change the tables or the files.
pub data Call (S : Type 0) : Type 0 where
  mounting : List ℕ → Ops S → Call S
  linking : List ℕ → List ℕ → Call S
  opening : List ℕ → Call S
  closing : ℤ → Call S
  writing_at : ℤ → List ℕ → Call S
  writing : List ℕ → List ℕ → Bool → Call S
  removing : List ℕ → Call S
  making : List ℕ → Call S

module _ {S : Type 0} where
  unfoldable pub run_call : Call S → Vfs S → Vfs S
  run_call (mounting point ops) v = record v { mounts = (mount point ops v.mounts).1 }
  run_call (linking source target) v = record v {
    aliases = (register_alias source target v.aliases).1;
  }
  run_call (opening path) v = (open_file path v).1
  run_call (closing fd) v = (close fd v).1
  run_call (writing_at fd bytes) v = (write fd bytes v).1
  run_call (writing path bytes replace) v = (write_internal path bytes replace v).1
  run_call (removing path) v = (remove path v).1
  run_call (making path) v = (mkdir path v).1

  unfoldable pub run_calls : List (Call S) → Vfs S → Vfs S
  run_calls [] v = v
  run_calls (c ∷ cs) v = run_calls cs (run_call c v)

-- A property of the file systems' state, and what a file system does to it.
module _ {S : Type 0} (P : S → Type 0) where
  -- No call of the operations breaks the property.
  pub record Keeps (ops : Ops S) : Type 0 where
    pub writes :
        (s : S) (rel bytes : List ℕ) (replace : Bool)
        → IsText rel
        → length bytes < 2 ^ 31
        → P s
        → P (write_with (some ops) s rel bytes replace).1
    pub removes : (s : S) (rel : List ℕ) → IsText rel → P s → P (remove_with (some ops) s rel).1
    pub makes : (s : S) (rel : List ℕ) → IsText rel → P s → P (mkdir_with (some ops) s rel).1

  abbrev pub AllKeep : Option (Ops S) → Type 0
  AllKeep none = Unit
  AllKeep (some ops) = Keeps ops

  -- The property holds, every mount keeps it, and the paths that the tables hold are texts.
  pub record IsSound (v : Vfs S) : Type 0 where
    pub files : P v.files
    pub mounts : All (λ m. AllKeep m.ops) v.mounts
    pub aliases : All (λ a. IsText a.target) v.aliases
    pub handles : All (λ h. IsText h.relative) v.handles

  pub keep_at : (v : Vfs S) (i : ℕ) → IsSound v → AllKeep (ops_at v i)
  unfolding ops_at
  keep_at v i s = All-get_or (λ (m : Mount S). AllKeep m.ops) v.mounts i no_mount s.mounts tt

  pub with_files-IsSound : (v : Vfs S) (s : S) → IsSound v → P s → IsSound (record v { files = s })
  with_files-IsSound v s h p = record {
    files = p;
    mounts = h.mounts;
    aliases = h.aliases;
    handles = h.handles;
  }

  pub with_handle-IsSound :
      (v : Vfs S) (fd : ℕ) (new : Handle)
      → IsSound v
      → IsText new.relative
      → IsSound (record v { handles = set v.handles fd new })
  with_handle-IsSound v fd new h t = record {
    files = h.files;
    mounts = h.mounts;
    aliases = h.aliases;
    handles = All-set (λ (x : Handle). IsText x.relative) v.handles fd new h.handles t;
  }

  pub write_with-keeps :
      (o : Option (Ops S)) (s : S) (rel bytes : List ℕ) (replace : Bool)
      → AllKeep o
      → IsText rel
      → length bytes < 2 ^ 31
      → P s
      → P (write_with o s rel bytes replace).1
  unfolding write_with
  write_with-keeps none s rel bytes replace k t l p = p
  write_with-keeps (some ops) s rel bytes replace k t l p = k.writes s rel bytes replace t l p

  pub remove_with-keeps :
      (o : Option (Ops S)) (s : S) (rel : List ℕ)
      → AllKeep o
      → IsText rel
      → P s
      → P (remove_with o s rel).1
  unfolding remove_with
  remove_with-keeps none s rel k t p = p
  remove_with-keeps (some ops) s rel k t p = k.removes s rel t p

  pub mkdir_with-keeps :
      (o : Option (Ops S)) (s : S) (rel : List ℕ)
      → AllKeep o
      → IsText rel
      → P s
      → P (mkdir_with o s rel).1
  unfolding mkdir_with
  mkdir_with-keeps none s rel k t p = p
  mkdir_with-keeps (some ops) s rel k t p = k.makes s rel t p

  -- What a path leads to is a text.
  pub lookup-IsText :
      (path : List ℕ) (v : Vfs S) (i : ℕ) (rel : List ℕ)
      → IsSound v
      → IsText path
      → lookup path v ≡ some (i, rel)
      → IsText rel
  unfolding lookup
  lookup-IsText path v i rel s t e =
      elim (Option-cases (normalize max_path (apply_alias path v.aliases))) [
        | inl n ↦ absurd (ground (arith, e, n))
        | inr (q, m) ↦
            let qt : IsText q =
              normalize-IsText max_path (apply_alias path v.aliases) q m
                (apply_alias-IsText path v.aliases t s.aliases) in
            elim (resolve_lem q v.mounts) [
              | inl (n, _) ↦ absurd (ground (arith, e, n, m))
              | inr (j, r, _, _, _) ↦
                  let same : relative_of (get_or v.mounts j no_mount).prefix_len q ≡ rel =
                    ground (arith, e, r, m) in
                  subst IsText same
                    (relative_of-IsText (get_or v.mounts j no_mount).prefix_len q qt)
            ]
      ]
