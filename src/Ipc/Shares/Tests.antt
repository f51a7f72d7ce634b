-- ===== src/Ipc/Shares/Tests.antt =====
-- Runs of the shared regions of kernel/ipc.c, and their theorems at concrete regions.
use pro_os.Prelude.{
  not, get_or, ℕ, ◌≡◌, refl, true, ◌⊎◌, inr, some, List, [], ◌∷◌, arith, replicate,
}
use pro_os.Prelude.Arrays.{All-replicate, find_index}
use pro_os.Prelude.Int.{pos, failure, success}
use pro_os.Ipc.Process.{Process, kernel, no_process, no_link, shared_per_proc, lookup}
use pro_os.Ipc.Caps.{check}
use pro_os.Ipc.Shares.{
  Region, no_region, max_regions, region_end, valid_region, attach, detach, attach_both,
  detach_both, share_locked, share, detach_pid, drop_from, drop_for_pid, attach_process,
  detach_process,
}
use pro_os.Ipc.Shares.Rollback.{IsCleared, share_locked_lem}
use pro_os.Ipc.Shares.Links.{HasLinks, IsTidy}

abbrev owner : Process
owner = record no_process { alive = true; pid = pos 4; kind = kernel }

abbrev procs : List Process
procs = owner ∷ record no_process { alive = true; pid = pos 7 } ∷ []

abbrev table : List Region
table = replicate max_regions no_region

shared : (share true (pos 7) 0x1000 2 (some 0) procs table).0 ≡ success
unfolding share valid_region region_end check lookup find_index share_locked attach_both attach
shared = refl

-- A target without a free link: the owner's link is taken back.
abbrev full_procs : List Process
full_procs =
    owner
    ∷ record no_process {
      alive = true;
      pid = pos 7;
      shares = replicate shared_per_proc (record { used = true; share_id = pos 9 });
      share_count = 8;
    }
    ∷ []

rolled_back : share true (pos 7) 0x1000 2 (some 0) full_procs table ≡ (failure, full_procs, table)
unfolding share valid_region region_end check lookup find_index share_locked attach_both detach_both
    attach detach
rolled_back = refl

dropped :
    let s = share true (pos 7) 0x1000 2 (some 0) procs table in
    (detach_process true 1 s.1 s.2).1 ≡ table
unfolding share valid_region region_end check lookup find_index share_locked attach_both attach
    detach detach_process detach_pid drop_for_pid drop_from attach_process
dropped = refl

owner-HasLinks : HasLinks owner
owner-HasLinks = record {
  room = refl;
  counted = refl;
  tidy = All-replicate IsTidy shared_per_proc no_link (inr refl);
}

share_locked_lem_example :
    let (code, procs', table') = share_locked 0 1 (pos 7) 0x1000 2 procs table in
    ((code ≡ failure) × (procs' ≡ procs) × (table' ≡ table))
    ⊎ ((code ≡ success)
        × ((i : ℕ) × (find_index (λ r. not r.used) table ≡ some i)
            × (get_or table' i no_region ≡ record {
              used = true;
              owner = pos 4;
              target = pos 7;
              addr = 0x1000;
              pages = 2;
              flags = 0;
            })))
unfolding find_index
share_locked_lem_example =
    share_locked_lem 0 1 (pos 7) 0x1000 2 procs table owner-HasLinks (omega arith)
      (All-replicate IsCleared max_regions no_region (inr refl)) (λ i e. (refl, refl))
