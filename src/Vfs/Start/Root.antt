-- ===== src/Vfs/Start/Root.antt =====
-- kernel/vfs.c: the mount of the root stays, so no normal path is without a file system.
use pro_os.Prelude.{
  ℕ, ◌≡◌, ◌≢◌, ◌↔◌, refl, ap, ◌∙◌, Bool, true, false, not, inl, inr, Option, none, some, List, [],
  ◌∷◌, ◌++◌, arith, leb, length, get_or, get_or-set_ne, Bool-cases, Option-cases,
}
use pro_os.Prelude.Arrays.{All-get_or, find_index, find_index-Found}
use pro_os.Prelude.Int.{ℤ}
use pro_os.Klog.{Log}
use pro_os.Vfs.{max_path, slash, normalize}
use pro_os.Vfs.Names.{joined}
use pro_os.Vfs.Normal.{absolute, normalize-IsNormal}
use pro_os.Vfs.Mounts.{Ops, Mount, no_mount, has_ops, serves, is_point, mount}
use pro_os.Vfs.Mounts.Longest.{resolve_lem}
use pro_os.Vfs.Calls.{Vfs, lookup, apply_alias, ops_at, write_at, write_internal, remove, mkdir}
use pro_os.Vfs.Calls.Handles.{can_open, get_handle, target, open_file, close, write}
use pro_os.Vfs.Keeping.{
  Call, mounting, linking, opening, closing, writing_at, writing, removing, making, run_call,
  run_calls,
}
use pro_os.Vfs.Devices.Shown.{Sources}
use pro_os.Vfs.Start.{Files, Kernel, mount_calls, file_calls, prepare_virtual_fs, emptied, init}
use pro_os.Vfs.Start.Runs.{mount-root}

absolute-slash : (names : List (List ℕ)) → get_or (absolute names) 0 0 ≡ slash
unfolding absolute joined
absolute-slash [] = refl
absolute-slash (s ∷ names) = refl

module _ {S : Type 0} where
  -- The first mount is in use for the root.
  abbrev HasRoot : List (Mount S) → Type 0
  HasRoot ms =
      ((get_or ms 0 no_mount).used ≡ true)
      × ((get_or ms 0 no_mount).prefix_len ≡ 1)
      × (has_ops (get_or ms 0 no_mount).ops ≡ true)

  mount-HasRoot :
      (point : List ℕ) (ops : Ops S) (ms : List (Mount S))
      → HasRoot ms
      → HasRoot (mount point ops ms).1
  unfolding mount
  mount-HasRoot point ops ms h = elim (Option-cases (normalize max_path point)) [
    | inl n ↦ rw n h
    | inr (path, e) ↦ elim (Option-cases (find_index (is_point path) ms)) [
      | inr (i, t) ↦ rw (e, mount) (rw t h)
      | inl f ↦ elim (Option-cases (find_index (λ m. not m.used) ms)) [
        | inl full ↦ rw (e, mount) (rw (f, mount) (rw full h))
        | inr (i, free) ↦
            let g = find_index-Found (λ (m : Mount S). not m.used) ms i free in
            let other : i ≢ 0 = λ z. used_or_free i z (g.passes no_mount) h.0 in
            rw (e, mount) (rw (f, mount) (rw free (rw (get_or-set_ne ms i 0 _ no_mount other) h)))
      ]
    ]
  ]
    where
      used_or_free :
          (j : ℕ)
          → j ≡ 0
          → not (get_or ms j no_mount).used ≡ true
          → (get_or ms 0 no_mount).used ≡ true
          → ⊥
      used_or_free j z a b = ground (arith, z, a, b)

  write_at-mounts :
      (v : Vfs S) (bytes : List ℕ) (replace : Bool) (t : Option (ℕ × List ℕ))
      → (write_at v bytes replace t).1.mounts ≡ v.mounts
  unfolding write_at
  write_at-mounts v bytes replace none = refl
  write_at-mounts v bytes replace (some (i, rel)) = refl

  open_file-mounts : (path : List ℕ) (v : Vfs S) → (open_file path v).1.mounts ≡ v.mounts
  unfolding open_file
  open_file-mounts path v = elim (Option-cases (lookup path v)) [
    | inl n ↦ rw n refl
    | inr ((i, rel), e) ↦ elim (Bool-cases (can_open (ops_at v i))) [
      | inr no_ops ↦ rw (e, no_ops) refl
      | inl ops ↦ elim (Option-cases (find_index (λ h. not h.used) v.handles)) [
        | inl full ↦ rw (e, ops, full) refl
        | inr (fd, f) ↦ elim (Bool-cases (leb max_path (length rel))) [
          | inl long ↦ rw (e, ops, f, long) refl
          | inr short ↦ rw (e, ops, f, short) refl
        ]
      ]
    ]
  ]

  close-mounts : (fd : ℤ) (v : Vfs S) → (close fd v).1.mounts ≡ v.mounts
  unfolding close
  close-mounts fd v = elim (Option-cases (get_handle fd v)) [
    | inl n ↦ rw n refl
    | inr (i, e) ↦ rw e refl
  ]

  remove-mounts : (path : List ℕ) (v : Vfs S) → (remove path v).1.mounts ≡ v.mounts
  unfolding remove
  remove-mounts path v = elim (Option-cases (lookup path v)) [
    | inl n ↦ rw n refl
    | inr ((i, rel), e) ↦ rw e refl
  ]

  mkdir-mounts : (path : List ℕ) (v : Vfs S) → (mkdir path v).1.mounts ≡ v.mounts
  unfolding mkdir
  mkdir-mounts path v = elim (Option-cases (lookup path v)) [
    | inl n ↦ rw n refl
    | inr ((i, rel), e) ↦ rw e refl
  ]

  run_call-HasRoot : (c : Call S) (v : Vfs S) → HasRoot v.mounts → HasRoot (run_call c v).mounts
  unfolding run_call write write_internal
  run_call-HasRoot (mounting point ops) v h = mount-HasRoot point ops v.mounts h
  run_call-HasRoot (linking source target) v h = h
  run_call-HasRoot (opening path) v h = rw (open_file-mounts path v) h
  run_call-HasRoot (closing fd) v h = rw (close-mounts fd v) h
  run_call-HasRoot (writing_at fd bytes) v h =
      rw (write_at-mounts v bytes true (target v (get_handle fd v))) h
  run_call-HasRoot (writing path bytes replace) v h =
      rw (write_at-mounts v bytes replace (lookup path v)) h
  run_call-HasRoot (removing path) v h = rw (remove-mounts path v) h
  run_call-HasRoot (making path) v h = rw (mkdir-mounts path v) h

  run_calls-HasRoot :
      (cs : List (Call S)) (v : Vfs S) → HasRoot v.mounts → HasRoot (run_calls cs v).mounts
  unfolding run_calls
  run_calls-HasRoot [] v h = h
  run_calls-HasRoot (c ∷ cs) v h = run_calls-HasRoot cs (run_call c v) (run_call-HasRoot c v h)

  root_serves :
      (q : List ℕ) (m : Mount S)
      → get_or q 0 0 ≡ slash
      → m.used ≡ true
      → m.prefix_len ≡ 1
      → has_ops m.ops ≡ true
      → serves q m ≡ true
  unfolding serves
  root_serves q m s u p o = ground (arith, s, u, p, o)

  normalize-none :
      (path : List ℕ) (v : Vfs S)
      → normalize max_path (apply_alias path v.aliases) ≡ none
      → lookup path v ≡ none
  unfolding lookup
  normalize-none path v n = rw n refl

  -- Where the root is mounted a path leads nowhere only if it has no normal form.
  lookup-none :
      (path : List ℕ) (v : Vfs S)
      → HasRoot v.mounts
      → lookup path v ≡ none
      → normalize max_path (apply_alias path v.aliases) ≡ none
  unfolding lookup serves
  lookup-none path v h e = elim (Option-cases (normalize max_path (apply_alias path v.aliases))) [
    | inl n ↦ n
    | inr (q, m) ↦
        let (names, _, _, shape, _, _) =
          normalize-IsNormal max_path (apply_alias path v.aliases) q m in
        let slashed : get_or q 0 0 ≡ slash = ap (λ s. get_or s 0 0) shape ∙ absolute-slash names in
        let served : serves q (get_or v.mounts 0 no_mount) ≡ true =
          root_serves q (get_or v.mounts 0 no_mount) slashed h.0 h.1 h.2 in
        elim (resolve_lem q v.mounts) [
          | inl (n, unserved) ↦
              let u : serves q (get_or v.mounts 0 no_mount) ≡ false =
                All-get_or (λ (x : Mount S). serves q x ≡ false) v.mounts 0 no_mount unserved
                  refl in
              absurd (ground (arith, u, served))
          | inr (j, r, _, _, _) ↦ absurd (ground (arith, e, r, m))
        ]
  ]

-- From the first `vfs_init` on, and after any calls, a path leads to no file system exactly when it has no normal
-- form, its aliases replaced: there is always a mount for an absolute path that is not too long or deep.
pub init-lookup-none :
    (src : Sources) (log : Log) (meminfo : List ℕ) (k : Kernel) (cs : List (Call Files))
    (path : List ℕ)
    → k.mounts_initialized ≡ false
    → let v = run_calls cs (init src log meminfo k).1.vfs in
      (lookup path v ≡ none) ↔ (normalize max_path (apply_alias path v.aliases) ≡ none)
unfolding init emptied prepare_virtual_fs
init-lookup-none src log meminfo k cs path fresh =
    rw (fresh, mount-root)
      (
        lookup-none path _ (
            run_calls-HasRoot cs _
              (run_calls-HasRoot (mount_calls src ++ file_calls log meminfo) _ (refl, refl, refl))),
        normalize-none path _,
      )
