-- ===== src/Sync/Waiters.antt =====
-- The wait queues of kernel/sync.c: an array with a count in front of it holds the live entries, in
-- the order of arrival.
use pro_os.Prelude.{
  ℕ, zero, suc, ◌≤◌, ◌<◌, ◌≡◌, refl, Bool, false, ◌||◌, List, [], ◌∷◌, ◌++◌, arith, length, take,
  length-set,
}
use pro_os.Prelude.Arrays.{length-shift_down, take-shift_down, take-set_end}
use pro_os.Prelude.Int.{ℤ, ◌==ℤ◌, ==ℤ_sym, failure, success}
use pro_os.Sync.{max_waiters, waiter_exists, enqueue_waiter, dequeue_waiter}

-- The queue that an array and a count stand for.
abbrev pub queue : List ℤ → ℕ → List ℤ
queue list count = take count list

abbrev pub contains : List ℤ → ℤ → Bool
contains [] pid = false
contains (x ∷ xs) pid = (x ==ℤ pid) || contains xs pid

-- No pid stands in the list twice.
abbrev pub Distinct : List ℤ → Type 0
Distinct [] = Unit {0}
Distinct (x ∷ xs) = (contains xs x ≡ false) × Distinct xs

pub waiter_exists-contains :
    (list : List ℤ) (count : ℕ) (pid : ℤ)
    → waiter_exists list count pid ≡ contains (queue list count) pid
unfolding waiter_exists
waiter_exists-contains list zero pid = refl
waiter_exists-contains [] (suc n) pid = refl
waiter_exists-contains (x ∷ xs) (suc n) pid = rw (waiter_exists-contains xs n pid)

-- With room left, `enqueue_waiter` succeeds and puts the pid at the end.
pub enqueue_waiter_room :
    (list : List ℤ) (count : ℕ) (pid : ℤ)
    → length list ≡ max_waiters
    → count < max_waiters
    → let (code, list', count') = enqueue_waiter list count pid in
      (code ≡ success)
      × (count' ≡ suc count)
      × (length list' ≡ max_waiters)
      × (queue list' count' ≡ queue list count ++ pid ∷ [])
unfolding enqueue_waiter
enqueue_waiter_room list count pid len room =
    ground (arith, length-set list count pid, take-set_end list count pid)

pub enqueue_waiter_full :
    (list : List ℤ) (count : ℕ) (pid : ℤ)
    → max_waiters ≤ count
    → enqueue_waiter list count pid ≡ (failure, list, count)
unfolding enqueue_waiter
enqueue_waiter_full list count pid full = ground arith

-- `dequeue_waiter` takes the first live entry out and keeps the order of the others.
pub dequeue_waiter_cons :
    (list : List ℤ) (count : ℕ)
    → length list ≡ max_waiters
    → 0 < count
    → count ≤ max_waiters
    → let (w, list', count') = dequeue_waiter list count in
      (queue list count ≡ w ∷ queue list' count')
      × (suc count' ≡ count)
      × (length list' ≡ max_waiters)
unfolding dequeue_waiter
dequeue_waiter_cons list zero len h k = absurd (omega arith)
dequeue_waiter_cons [] (suc n) len h k = absurd (omega arith)
dequeue_waiter_cons (x ∷ xs) (suc n) len h k =
    ground (arith, length-shift_down failure (x ∷ xs) 0 n, take-shift_down failure (x ∷ xs) 0 n n)

contains-append :
    (xs ys : List ℤ) (p : ℤ) → contains (xs ++ ys) p ≡ (contains xs p || contains ys p)
contains-append [] ys p = refl
contains-append (x ∷ xs) ys p = ground (arith, contains-append xs ys p)

-- A pid that is not in the queue joins it behind the others.
pub Distinct-append :
    (xs : List ℤ) (p : ℤ) → Distinct xs → contains xs p ≡ false → Distinct (xs ++ p ∷ [])
Distinct-append [] p d h = (refl, tt)
Distinct-append (x ∷ xs) p d h =
    ground (arith, contains-append xs (p ∷ []) x, Distinct-append xs p, ==ℤ_sym x p)

-- Joining changes the membership of no other pid.
pub contains-append_ne :
    (xs : List ℤ) (p q : ℤ) → (p ==ℤ q) ≡ false → contains (xs ++ p ∷ []) q ≡ contains xs q
contains-append_ne xs p q h = ground (arith, contains-append xs (p ∷ []) q)
