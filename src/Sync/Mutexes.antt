-- ===== src/Sync/Mutexes.antt =====
-- The mutex entries of kernel/sync.c: the invariant of an entry and what each operation does to it.
use pro_os.Prelude.{
  suc, ◌≤◌, ◌<◌, ◌≡◌, true, false, List, [], ◌∷◌, ◌++◌, arith, length, ◌⊎◌, inl, inr,
}
use pro_os.Prelude.Int.{ℤ, ◌==ℤ◌, ==ℤ_sym}
use pro_os.Sync.{Mutex, max_waiters, join_mutex, lock_round, release_mutex, unlock}
use pro_os.Sync.Waiters.{
  queue, contains, Distinct, waiter_exists-contains, enqueue_waiter_room, enqueue_waiter_full,
  dequeue_waiter_cons, Distinct-append, contains-append_ne,
}

-- The processes that wait for the mutex, oldest first.
abbrev pub waiting : Mutex → List ℤ
waiting m = queue m.waiters m.wait_count

-- The array is never overrun; no process waits twice, or for a mutex that it owns or that is free.
pub record IsValid (m : Mutex) : Type 0 where
  pub room : length m.waiters ≡ max_waiters
  pub bounded : m.wait_count ≤ max_waiters
  pub distinct : Distinct (waiting m)
  pub idle : m.locked ≡ false → m.wait_count ≡ 0
  pub apart : m.locked ≡ true → contains (waiting m) m.owner ≡ false

-- What joining does: nothing to one who waits already or finds the queue full.
waiting-join_mutex :
    (self : ℤ) (m : Mutex)
    → IsValid m
    → ((waiting (join_mutex self m) ≡ waiting m) × (join_mutex self m ≡ m))
      ⊎ ((contains (waiting m) self ≡ false)
          × (waiting (join_mutex self m) ≡ waiting m ++ self ∷ [])
          × ((join_mutex self m).wait_count ≡ suc m.wait_count)
          × (m.wait_count < max_waiters)
          × (length (join_mutex self m).waiters ≡ max_waiters)
          × ((join_mutex self m).locked ≡ m.locked)
          × ((join_mutex self m).owner ≡ m.owner))
unfolding join_mutex
waiting-join_mutex self m v = ground (
  arith,
  waiter_exists-contains m.waiters m.wait_count self,
  enqueue_waiter_room m.waiters m.wait_count self,
  enqueue_waiter_full m.waiters m.wait_count self,
)

join_mutex-IsValid :
    (self : ℤ) (m : Mutex)
    → IsValid m
    → m.locked ≡ true
    → (m.owner ==ℤ self) ≡ false
    → IsValid (join_mutex self m)
join_mutex-IsValid self m v l o = elim (waiting-join_mutex self m v) [
  | inl (_, same) ↦ rw same v
  | inr (new, ws, n, space, len, lk, ow) ↦ record {
    room = len;
    bounded = omega arith;
    distinct = rw ws (Distinct-append (waiting m) self v.distinct new);
    idle = λ e. cc;
    apart = λ _.
        rw (ws, ow)
          (ground (arith, contains-append_ne (waiting m) self m.owner, ==ℤ_sym self m.owner));
  }
]

pub lock_round-IsValid : (self : ℤ) (m : Mutex) → IsValid m → IsValid (lock_round self m).1
unfolding lock_round
lock_round-IsValid self m v = ground (arith, join_mutex-IsValid self m v)

pub unlock-IsValid : (self : ℤ) (m : Mutex) → IsValid m → IsValid (unlock self m).2
unfolding unlock release_mutex
unlock-IsValid self m v = ground (arith, dequeue_waiter_cons m.waiters m.wait_count)
