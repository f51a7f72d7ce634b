-- ===== src/Vfs/Start/Trees.antt =====
-- kernel/vfs.c over kernel/ramfs.c and kernel/devicefs.c: from `vfs_init` on, every volume is a tree.
use pro_os.Prelude.{
  ℕ, zero, suc, ◌^◌, ◌<◌, ◌≡◌, ◌∙◌, Bool, inl, inr, some, List, [], ◌∷◌, arith, ◌==◌, length, set,
  length-set, Bool-cases,
}
use pro_os.Prelude.Arrays.{All, All-set}
use pro_os.Ramfs.{Volume}
use pro_os.Ramfs.Text.{IsText}
use pro_os.Ramfs.Tree.{IsTree}
use pro_os.Ramfs.Files.Calls
use pro_os.Ramfs.Files.Calls.{run_call, run_call-IsTree, init-IsTree, appending, removing}
use pro_os.Vfs.Adapters.{volume, ramfs_ops, write_adapter, remove_adapter, mkdir_adapter}
use pro_os.Vfs.Calls.{write_with, remove_with, mkdir_with}
use pro_os.Vfs.Keeping.{Keeps}
use pro_os.Vfs.Devices.{devicefs_ops}
use pro_os.Vfs.Devices.Shown.{Sources}
use pro_os.Vfs.Start.{Files, on_volumes, on_entries, ram, devices}

-- The six volumes are there, and each is a tree.
abbrev pub AllTrees : Files → Type 0
AllTrees s = (length s.volumes ≡ 6) × All IsTree s.volumes

All-at : (vs : List Volume) (k : ℕ) → All IsTree vs → k < length vs → IsTree (volume vs k)
All-at [] k h l = absurd (omega arith)
All-at (v ∷ vs) zero h l = h.0
All-at (v ∷ vs) (suc k) h l = All-at vs k h.1 (omega arith)

-- A volume is changed by a call.
changed :
    (s : Files) (k : ℕ) (c : Calls.Call)
    → Calls.IsGiven c
    → k < 6
    → AllTrees s
    → AllTrees (record s { volumes = set s.volumes k (run_call c (volume s.volumes k)).1 })
changed s k c g l t = (
  length-set s.volumes k (run_call c (volume s.volumes k)).1 ∙ t.0,
  All-set IsTree s.volumes k _ t.1
      (run_call-IsTree c (volume s.volumes k) g (All-at s.volumes k t.1 (omega (arith, l, t.0)))),
)

module _ (k : ℕ) (l : k < 6) where
  ram-writes :
      (s : Files) (rel bytes : List ℕ) (replace : Bool)
      → IsText rel
      → length bytes < 2 ^ 31
      → AllTrees s
      → AllTrees (write_with (some (ram k)) s rel bytes replace).1
  unfolding write_with ram on_volumes ramfs_ops write_adapter run_call
  ram-writes s rel bytes replace text small t = elim (Bool-cases (length rel == 0)) [
    | inl e ↦ rw e t
    | inr n ↦ elim (Bool-cases replace) [
      | inl r ↦
          rw (n, r)
            (changed s k (Calls.writing rel (some bytes) (length bytes)) (text, omega arith) l t)
      | inr a ↦
          rw (n, a)
            (changed s k (appending rel bytes (length bytes)) (text, omega arith, small) l t)
    ]
  ]

  ram-removes :
      (s : Files) (rel : List ℕ)
      → IsText rel
      → AllTrees s
      → AllTrees (remove_with (some (ram k)) s rel).1
  unfolding remove_with ram on_volumes ramfs_ops remove_adapter run_call
  ram-removes s rel text t = elim (Bool-cases (length rel == 0)) [
    | inl e ↦ rw e t
    | inr n ↦ rw n (changed s k (removing rel) text l t)
  ]

  ram-makes :
      (s : Files) (rel : List ℕ)
      → IsText rel
      → AllTrees s
      → AllTrees (mkdir_with (some (ram k)) s rel).1
  unfolding mkdir_with ram on_volumes ramfs_ops mkdir_adapter run_call
  ram-makes s rel text t = elim (Bool-cases (length rel == 0)) [
    | inl e ↦ rw e t
    | inr n ↦ rw n (changed s k (Calls.making rel) text l t)
  ]

  pub ram-Keeps : Keeps AllTrees (ram k)
  ram-Keeps = record { writes = ram-writes; removes = ram-removes; makes = ram-makes }

-- The files of devicefs are apart from the volumes.
pub devices-Keeps : (src : Sources) → Keeps AllTrees (devices src)
unfolding write_with remove_with mkdir_with devices on_entries devicefs_ops
devices-Keeps src = record {
  writes = λ s rel bytes replace text small t. t;
  removes = λ s rel text t. t;
  makes = λ s rel text t. t;
}
