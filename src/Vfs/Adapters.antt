-- ===== src/Vfs/Adapters.antt =====
-- kernel/vfs.c: the adapters of kernel/ramfs.c, and a file written and read through both. The state of the
-- file systems is the list of the RAM volumes; an adapter's context is the place of its volume.
use pro_os.Prelude.{
  ℕ, ◌-◌, ◌<◌, ◌≡◌, ◌⊎◌, inl, inr, refl, ap, ◌∙◌, Bool, false, some, List, [], arith, min, ◌==◌,
  if◌then◌else◌, length, get_or, set, take, set_self, get_or-set_self,
}
use pro_os.Prelude.Int.{ℤ, pos, failure}
use pro_os.Ramfs
use pro_os.Ramfs.{Volume, max_file_size}
use pro_os.Ramfs.Text.{IsText}
use pro_os.Ramfs.Tree.{IsTree}
use pro_os.Ramfs.Files.{contents}
use pro_os.Ramfs.Files.Writes.{Writes, not_written, writes, write_lem}
use pro_os.Vfs.Mounts.{Ops}
use pro_os.Vfs.Calls.{Vfs, lookup, ops_at, read_path, write_file, write_internal}

abbrev pub volume : List Volume → ℕ → Volume
volume vs k = get_or vs k []

abbrev pub put_volume : List Volume → ℕ → ℤ × Volume → ℤ × List Volume
put_volume vs k (code, w) = (code, set vs k w)

-- `ramfs_list_adapter` and `ramfs_read_adapter`
unfoldable pub list_adapter : ℕ → List Volume → List ℕ → ℕ → ℤ × List ℕ
list_adapter k vs path size = Ramfs.list (volume vs k) path size

unfoldable pub read_adapter : ℕ → List Volume → List ℕ → ℕ → ℤ × List ℕ
read_adapter k vs path size =
    if length path == 0 then (failure, []) else Ramfs.read (volume vs k) path size

-- `ramfs_write_adapter`, the data not NULL
unfoldable pub write_adapter : ℕ → List Volume → List ℕ → List ℕ → Bool → ℤ × List Volume
write_adapter k vs path bytes replace =
    if length path == 0
    then (failure, vs)
    else if replace
    then put_volume vs k (Ramfs.write (volume vs k) path (some bytes) (length bytes))
    else put_volume vs k (Ramfs.append (volume vs k) path bytes (length bytes))

-- `ramfs_remove_adapter` and `ramfs_mkdir_adapter`
unfoldable pub remove_adapter : ℕ → List Volume → List ℕ → ℤ × List Volume
remove_adapter k vs path =
    if length path == 0 then (failure, vs) else put_volume vs k (Ramfs.remove (volume vs k) path)

unfoldable pub mkdir_adapter : ℕ → List Volume → List ℕ → ℤ × List Volume
mkdir_adapter k vs path =
    if length path == 0 then (failure, vs) else put_volume vs k (Ramfs.mkdir (volume vs k) path)

-- `ramfs_ops`, with its context
unfoldable pub ramfs_ops : ℕ → Ops (List Volume)
ramfs_ops k = record {
  list = some (list_adapter k);
  read = some (read_adapter k);
  write = some (write_adapter k);
  remove = some (remove_adapter k);
  mkdir = some (mkdir_adapter k);
}

-- How a write to a volume ends, as two equations.
written-cases :
    (v : Volume) (name text : List ℕ) (n : ℕ) (r : ℤ × Volume)
    → Writes v name text n r
    → (r ≡ (failure, v))
      ⊎ ((r.0 ≡ pos (min n (max_file_size - 1)))
          × (contents r.1 name ≡ take (min n (max_file_size - 1)) text))
written-cases v name text n r (not_written h) = inl refl
written-cases v name text n r (writes c o) = inr (refl, c)

module _ (path rel text : List ℕ) (i k : ℕ) (v : Vfs (List Volume))
    (leads : lookup path v ≡ some (i, rel)) (mounted : ops_at v i ≡ some (ramfs_ops k))
    (here : k < length v.files) (full : (length rel == 0) ≡ false) where
  -- The calls on the path are the calls on the volume.
  write_file-volume :
      let r = Ramfs.write (volume v.files k) rel (some text) (length text) in
      ((write_file path text v).0 ≡ r.0)
      × ((write_file path text v).1 ≡ record v { files = set v.files k r.1 })
  unfolding write_file write_internal ramfs_ops write_adapter
  write_file-volume = rw (leads, mounted, full) (refl, refl)

  lookup-files : (vs : List Volume) → lookup path (record v { files = vs }) ≡ lookup path v
  unfolding lookup
  lookup-files vs = refl

  ops_at-files : (vs : List Volume) → ops_at (record v { files = vs }) i ≡ ops_at v i
  unfolding ops_at
  ops_at-files vs = refl

  read_path-volume :
      (w : Volume) (size : ℕ)
      → 0 < size
      → read_path path size (record v { files = set v.files k w }) ≡ Ramfs.read w rel size
  unfolding read_path ramfs_ops read_adapter
  read_path-volume w size h =
      let some_room : (size == 0) ≡ false = ground arith in
      let leads' : lookup path (record v { files = set v.files k w }) ≡ some (i, rel) =
        lookup-files (set v.files k w) ∙ leads in
      let mounted' : ops_at (record v { files = set v.files k w }) i ≡ some (ramfs_ops k) =
        ops_at-files (set v.files k w) ∙ mounted in
      rw (some_room, leads', mounted', full)
        (ap (λ x. Ramfs.read x rel size) (get_or-set_self v.files k w [] here))

  -- For a path that leads to the mount of a RAM volume, with something below it that has no terminator, and a
  -- volume that is a tree: writing a text to it fails without a change, or the contents are the text cut at
  -- 1023 bytes, the answer is their number, and reading the path gives them back.
  pub write-read :
      IsTree (volume v.files k)
      → IsText rel
      → let (code, v') = write_file path text v in
        ((code ≡ failure) × (v' ≡ v))
        ⊎ ((code ≡ pos (min (length text) (max_file_size - 1)))
            × ((read_path path max_file_size v').1
                ≡ take (min (length text) (max_file_size - 1)) text))
  write-read tree is_text =
      let vol : Volume = volume v.files k in
      let r : ℤ × Volume = Ramfs.write vol rel (some text) (length text) in
      let whole = write_file-volume in
      elim (written-cases vol rel text (length text) r
        (write_lem vol rel text (length text) tree is_text (omega arith)).1) [
          | inl e ↦ inl (
            whole.0 ∙ ap (λ x. x.0) e,
            whole.1
                ∙ ap (λ (x : ℤ × Volume). record v { files = set v.files k x.1 }) e
                ∙ ap (λ vs. record v { files = vs }) (set_self v.files k []),
          )
          | inr (c, t) ↦ inr (
            whole.0 ∙ c,
            ap (λ x. (read_path path max_file_size x).1) whole.1
                ∙ ap (λ x. x.1) (read_path-volume r.1 max_file_size (omega arith))
                ∙ t,
          )
        ]
