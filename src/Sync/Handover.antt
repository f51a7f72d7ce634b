-- ===== src/Sync/Handover.antt =====
-- kernel/sync.c, `sync_mutex_unlock`: who gets the mutex next.
use pro_os.Prelude.{◌≡◌, refl, true, false, Option, none, List, [], ◌∷◌, ◌++◌, map, arith}
use pro_os.Prelude.Int.{ℤ, ◌==ℤ◌, ==ℤ_refl, success}
use pro_os.Sync.{Mutex, blocks, max_waiters, join_mutex, lock_round, release_mutex, woken, unlock}
use pro_os.Sync.Waiters.{contains, waiter_exists-contains, enqueue_waiter_full, dequeue_waiter_cons}
use pro_os.Sync.Mutexes.{IsValid, waiting, unlock-IsValid}

-- With nobody waiting, the owner's unlock frees the mutex and wakes nobody.
pub unlock_frees :
    (m : Mutex)
    → IsValid m
    → m.used ≡ true
    → m.locked ≡ true
    → waiting m ≡ []
    → let (code, wake, m') = unlock m.owner m in
      (code ≡ success) × (wake ≡ none) × (m'.locked ≡ false) × (waiting m' ≡ []) × (m'.used ≡ true)
unfolding unlock release_mutex
unlock_frees m v u l e =
    ground (arith, ==ℤ_refl m.owner, dequeue_waiter_cons m.waiters m.wait_count)

-- The owner's unlock makes the oldest waiter the owner and wakes it; the others keep their order.
pub unlock_serves :
    (m : Mutex) (w : ℤ) (ws : List ℤ)
    → IsValid m
    → m.used ≡ true
    → m.locked ≡ true
    → waiting m ≡ w ∷ ws
    → let (code, wake, m') = unlock m.owner m in
      (code ≡ success)
      × (wake ≡ woken w)
      × (m'.locked ≡ true)
      × (m'.owner ≡ w)
      × (waiting m' ≡ ws)
      × (m'.used ≡ true)
unfolding unlock release_mutex
unlock_serves m w ws v u l e =
    ground (arith, ==ℤ_refl m.owner, dequeue_waiter_cons m.waiters m.wait_count)

-- The processes of the list unlock the mutex one after another: the codes, the processes woken, and
-- the mutex in the end.
pub unlock_each : List ℤ → Mutex → List ℤ × List (Option ℤ) × Mutex
unlock_each [] m = ([], [], m)
unlock_each (p ∷ ps) m =
    let (code, wake, m') = unlock p m in
    let (codes, wakes, m'') = unlock_each ps m' in (code ∷ codes, wake ∷ wakes, m'')

drained :
    (m : Mutex) (o : ℤ) (ws : List ℤ)
    → IsValid m
    → m.used ≡ true
    → m.locked ≡ true
    → m.owner ≡ o
    → waiting m ≡ ws
    → let (codes, wakes, m') = unlock_each (o ∷ ws) m in
      (codes ≡ map (λ _. success) (o ∷ ws))
      × (wakes ≡ map woken ws ++ none ∷ [])
      × (m'.locked ≡ false)
      × (waiting m' ≡ [])
unfolding unlock_each
drained m o [] v u l e q = rw (← e) (ground (arith, unlock_frees m v u l q))
drained m o (w ∷ ws) v u l e q = rw (← e) (
    ground (
      arith,
      unlock_serves m w ws v u l q,
      drained (unlock m.owner m).2 w ws (unlock-IsValid m.owner m v),
    ))

-- From a held mutex, unlocks by the owner and then by the waiters in the order in which they queued
-- all succeed, wake the waiters in that order, and leave the mutex free with nobody waiting.
pub unlock_each_drains :
    (m : Mutex)
    → IsValid m
    → m.used ≡ true
    → m.locked ≡ true
    → let (codes, wakes, m') = unlock_each (m.owner ∷ waiting m) m in
      (codes ≡ map (λ _. success) (m.owner ∷ waiting m))
      × (wakes ≡ map woken (waiting m) ++ none ∷ [])
      × (m'.locked ≡ false)
      × (waiting m' ≡ [])
unlock_each_drains m v u l = drained m m.owner (waiting m) v u l refl refl

-- A process that meets a held mutex whose queue is full blocks without being queued: the entry stays
-- as it was, and the unlocks of the owner and of all the waiters hand the mutex on without waking
-- that process, until the mutex is free.
pub lock_round_full :
    (self : ℤ) (m : Mutex)
    → IsValid m
    → m.used ≡ true
    → m.locked ≡ true
    → (m.owner ==ℤ self) ≡ false
    → contains (waiting m) self ≡ false
    → m.wait_count ≡ max_waiters
    → let (out, m') = lock_round self m in
      let (_, wakes, m'') = unlock_each (m.owner ∷ waiting m) m' in
      (out ≡ blocks)
      × (m' ≡ m)
      × (wakes ≡ map woken (waiting m) ++ none ∷ [])
      × (m''.locked ≡ false)
unfolding lock_round join_mutex
lock_round_full self m v u l o c full = ground (
  arith,
  waiter_exists-contains m.waiters m.wait_count self,
  enqueue_waiter_full m.waiters m.wait_count self,
  unlock_each_drains m v,
)
