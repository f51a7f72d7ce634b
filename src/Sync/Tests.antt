-- ===== src/Sync/Tests.antt =====
-- Runs of kernel/sync.c on small tables, and its theorems at concrete entries.
use pro_os.Prelude.{◌≡◌, refl, true, false, none, some, [], ◌∷◌, arith, replicate}
use pro_os.Prelude.Arrays.{All, shift_down, find_index, All-replicate}
use pro_os.Prelude.Int.{pos, negsuc, failure, success}
use pro_os.Sync.{
  Mutex, Semaphore, Sync, returns, no_mutex, no_semaphore, lock_round, unlock, mutex_create,
  mutex_lock, semaphore_create, max_mutexes, max_semaphores,
}
use pro_os.Sync.Waiters.{queue}
use pro_os.Sync.Mutexes
use pro_os.Sync.Handover.{unlock_each, unlock_each_drains}
use pro_os.Sync.Exclusion
use pro_os.Sync.Exclusion.{lock_excludes, IsHeld}
use pro_os.Sync.Semaphores
use pro_os.Sync.Semaphores.{run-Balanced, post_wakes_in_vain, Balanced, waits, posts}
use pro_os.Sync.Tables
use pro_os.Sync.Tables.{
  IsSound, step-IsSound, mutex_create_lem, no_mutex-IsValid, no_semaphore-IsValid,
}

-- Held by 5; 6 and 7 wait.
abbrev contended : Mutex
contended = record {
  used = true;
  locked = true;
  owner = pos 5;
  waiters = pos 6 ∷ pos 7 ∷ replicate 6 (pos 0);
  wait_count = 2;
}

-- Held by 5 while eight processes wait.
abbrev crowded : Mutex
crowded = record {
  used = true;
  locked = true;
  owner = pos 5;
  waiters = pos 10 ∷ pos 11 ∷ pos 12 ∷ pos 13 ∷ pos 14 ∷ pos 15 ∷ pos 16 ∷ pos 17 ∷ [];
  wait_count = 8;
}

abbrev open_mutex : Mutex
open_mutex = record no_mutex { used = true }

-- No permits, and 6 waits.
abbrev awaited : Semaphore
awaited = record {
  used = true;
  count = pos 0;
  waiters = pos 6 ∷ replicate 7 (pos 0);
  wait_count = 1;
}

abbrev boot : Sync
boot = record {
  mutexes = replicate max_mutexes no_mutex;
  semaphores = replicate max_semaphores no_semaphore;
}

joins_at_the_end :
    (lock_round (pos 8) contended).1.waiters ≡ pos 6 ∷ pos 7 ∷ pos 8 ∷ replicate 5 (pos 0)
unfolding lock_round
joins_at_the_end = refl

hands_over : unlock (pos 5) contended ≡ (
  success,
  some (pos 6),
  record contended { owner = pos 6; waiters = pos 7 ∷ pos 7 ∷ replicate 6 (pos 0); wait_count = 1 },
)
unfolding unlock shift_down
hands_over = refl

second_handle : (mutex_create (mutex_create boot).1).0 ≡ pos 1
unfolding mutex_create find_index
second_handle = refl

lock_without_process : mutex_lock none (pos 0) boot ≡ (returns failure, boot)
unfolding mutex_lock
lock_without_process = refl

negative_count : semaphore_create (negsuc 4) boot ≡ (failure, boot)
unfolding semaphore_create
negative_count = refl

contended-IsValid : Mutexes.IsValid contended
contended-IsValid = record {
  room = refl;
  bounded = omega arith;
  distinct = (refl, (refl, tt));
  idle = λ e. cc;
  apart = λ e. refl;
}

crowded-IsValid : Mutexes.IsValid crowded
crowded-IsValid = record {
  room = refl;
  bounded = omega arith;
  distinct = (refl, (refl, (refl, (refl, (refl, (refl, (refl, (refl, tt))))))));
  idle = λ e. cc;
  apart = λ e. refl;
}

awaited-IsValid : Semaphores.IsValid awaited
awaited-IsValid = record {
  room = refl;
  bounded = omega arith;
  distinct = (refl, tt);
  pids = (refl, tt);
}

boot-IsSound : IsSound boot
boot-IsSound = record {
  mutex_room = refl;
  semaphore_room = refl;
  mutexes_valid = All-replicate Mutexes.IsValid max_mutexes no_mutex no_mutex-IsValid;
  semaphores_valid =
      All-replicate Semaphores.IsValid max_semaphores no_semaphore no_semaphore-IsValid;
}

unlock_each_drains_example :
    let (codes, wakes, m) = unlock_each (pos 5 ∷ pos 6 ∷ pos 7 ∷ []) contended in
    (codes ≡ success ∷ success ∷ success ∷ [])
    × (wakes ≡ some (pos 6) ∷ some (pos 7) ∷ none ∷ [])
    × (m.locked ≡ false)
    × (queue m.waiters m.wait_count ≡ [])
unlock_each_drains_example = unlock_each_drains contended contended-IsValid refl refl

lock_excludes_example :
    let (dones, m) =
      Exclusion.run
        (Exclusion.locks (pos 6) ∷ Exclusion.unlocks (pos 7) ∷ [])
        (Exclusion.step (Exclusion.locks (pos 5)) open_mutex).1 in
    All (λ done. done ≡ false) dones
    × IsHeld (pos 5) m
    × ((Exclusion.step (Exclusion.unlocks (pos 5)) m).0 ≡ true)
unfolding Exclusion.step lock_round
lock_excludes_example =
    lock_excludes (pos 5) (Exclusion.locks (pos 6) ∷ Exclusion.unlocks (pos 7) ∷ []) open_mutex refl
      (refl, (refl, tt))

run-Balanced_example : Balanced 0 (
    Semaphores.run
      (waits (pos 7) ∷ posts ∷ posts ∷ posts ∷ waits (pos 6) ∷ [])
      (awaited, record { acquired = 0; posted = 0; woke = 0 }))
run-Balanced_example =
    run-Balanced 0 (waits (pos 7) ∷ posts ∷ posts ∷ posts ∷ waits (pos 6) ∷ [])
      (awaited, record { acquired = 0; posted = 0; woke = 0 }) (refl, (tt, (tt, (tt, (refl, tt)))))
      (omega arith) (record { valid = awaited-IsValid; not_negative = refl; balance = refl })

step-IsSound_example : IsSound (Tables.step (Tables.locks (some (pos 3)) (pos 0)) boot)
step-IsSound_example = step-IsSound (Tables.locks (some (pos 3)) (pos 0)) boot tt boot-IsSound
