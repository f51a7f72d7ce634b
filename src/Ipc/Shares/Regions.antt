-- ===== src/Ipc/Shares/Regions.antt =====
-- kernel/ipc.c: the table of shared regions, and the range check of `ipc_share`.
use Prim.Native.Nat.{bit_and}
use pro_os.Prelude.{
  ℕ, suc, ◌+◌, ◌-◌, ◌*◌, ◌^◌, ◌≤◌, ◌<◌, ◌≡◌, refl, ap, sym, subst, map, Bool, true, false, ◌&&◌,
  ◌||◌, ◌⊎◌, inl, inr, List, [], ◌∷◌, arith, get_or, if◌then◌else◌, Bool-cases,
}
use pro_os.Prelude.Arrays.{All}
use pro_os.Prelude.Int.{ℤ, ◌==ℤ◌, is_positive}
use pro_os.Ipc.Process.{Process, no_process}
use pro_os.Ipc.Shares.{
  Region, no_region, page_size, user_space_limit, region_end, valid_region, drop_from, drop_for_pid,
  detach_process,
}

-- A region that `ipc_share` accepts, of less than 2 ^ 20 pages, is not empty, starts at a page and lies below the
-- limit of user space.
pub valid_region_lem :
    (base pages : ℕ)
    → base < 2 ^ 32
    → pages < 2 ^ 20
    → valid_region base pages ≡ true
    → (0 < base)
      × (0 < pages)
      × (bit_and base (page_size - 1) ≡ 0)
      × (base + pages * page_size ≤ user_space_limit)
unfolding valid_region region_end
valid_region_lem base pages b p e = ground arith

-- The product of the page count and the page size wraps: every aligned address in user space passes with
-- a whole multiple of 2 ^ 20 pages, a region of 4 GiB.
pub valid_region_wraps :
    (base k : ℕ)
    → 0 < base
    → base ≤ user_space_limit
    → bit_and base (page_size - 1) ≡ 0
    → 0 < k
    → k < 2 ^ 12
    → valid_region base (k * 2 ^ 20) ≡ true
unfolding valid_region region_end
valid_region_wraps base k b l a h w = ground arith

-- No region of the process is left.
abbrev pub IsFreeOf : ℤ → Region → Type 0
IsFreeOf pid r = (r.used ≡ false) ⊎ (((r.owner ==ℤ pid) ≡ false) × ((r.target ==ℤ pid) ≡ false))

abbrev pub is_party : ℤ → Region → Bool
is_party pid r = r.used && ((r.owner ==ℤ pid) || (r.target ==ℤ pid))

-- A region without those of the process.
abbrev pub without : ℤ → Region → Region
without pid r = if is_party pid r then no_region else r

without-IsFreeOf : (pid : ℤ) (r : Region) → IsFreeOf pid (without pid r)
without-IsFreeOf pid r = elim (Bool-cases (is_party pid r)) [
  | inl e ↦ rw e (inl refl)
  | inr e ↦ rw e (other e)
]
  where
    other : is_party pid r ≡ false → IsFreeOf pid r
    other e = ground arith

All-without : (pid : ℤ) (table : List Region) → All (IsFreeOf pid) (map (without pid) table)
All-without pid [] = tt
All-without pid (r ∷ rs) = (without-IsFreeOf pid r, All-without pid rs)

drop_from_lem :
    (i : ℕ) (pid : ℤ) (procs : List Process) (table : List Region)
    → (drop_from i pid procs table).1 ≡ map (without pid) table
unfolding drop_from
drop_from_lem i pid procs [] = refl
drop_from_lem i pid procs (r ∷ rs) = ap (◌∷◌ (without pid r)) (drop_from_lem (suc i) pid _ rs)

-- `ipc_detach_process` frees the regions in which the process is the owner or the target and no others,
-- and no region of the process is left.
pub detach_process_lem :
    (i : ℕ) (procs : List Process) (table : List Region)
    → is_positive (get_or procs i no_process).pid ≡ true
    → let pid = (get_or procs i no_process).pid in
      let table' = (detach_process true i procs table).1 in
      (table' ≡ map (without pid) table) × All (IsFreeOf pid) table'
unfolding detach_process drop_for_pid
detach_process_lem i procs table h =
    let pid : ℤ = (get_or procs i no_process).pid in
    let e = drop_from_lem 0 pid procs table in
    rw h (e, subst (All (IsFreeOf pid)) (sym e) (All-without pid table))
