-- ===== src/Ramfs/Root.antt =====
-- kernel/ramfs.c: the one volume of the kernel, which the first call initialises, and the calls on it.
use pro_os.Prelude.{ℕ, Bool, true, if◌then◌else◌, List, [], some}
use pro_os.Prelude.Int.{ℤ}
use pro_os.Ramfs.{Volume, init, list, read, append, write, remove, mkdir}

-- `root_volume` and `root_initialized`
pub record Root : Type 0 where
  pub volume : Volume
  pub initialized : Bool

-- `ramfs_root_volume`
unfoldable pub root_volume : Root → Root
root_volume r = if r.initialized then r else record { volume = init r.volume; initialized = true }

-- A call on the root volume
unfoldable pub on_root : (Volume → ℤ × Volume) → Root → ℤ × Root
on_root f r = let w = root_volume r in let (code, v) = f w.volume in (code, record w { volume = v })

-- `ramfs_init`
unfoldable pub root_init : Root → Root
root_init r = let w = root_volume r in record w { volume = init w.volume }

-- `ramfs_list` and `ramfs_read`: the result, the text and the root
unfoldable pub root_list : ℕ → Root → (ℤ × List ℕ) × Root
root_list buffer_size r = (list (root_volume r).volume [] buffer_size, root_volume r)

unfoldable pub root_read : List ℕ → ℕ → Root → (ℤ × List ℕ) × Root
root_read name out_size r = (read (root_volume r).volume name out_size, root_volume r)

-- `ramfs_write` appends, `ramfs_write_file` overwrites.
unfoldable pub root_write : List ℕ → List ℕ → ℕ → Root → ℤ × Root
root_write name text n = on_root (λ v. append v name text n)

unfoldable pub root_write_file : List ℕ → List ℕ → ℕ → Root → ℤ × Root
root_write_file name text n = on_root (λ v. write v name (some text) n)

unfoldable pub root_remove : List ℕ → Root → ℤ × Root
root_remove name = on_root (λ v. remove v name)

unfoldable pub root_mkdir : List ℕ → Root → ℤ × Root
root_mkdir name = on_root (λ v. mkdir v name)
