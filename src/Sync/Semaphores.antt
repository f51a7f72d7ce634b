-- ===== src/Sync/Semaphores.antt =====
-- The semaphore entries of kernel/sync.c: the invariant of an entry, and where the permits go.
use pro_os.Prelude.{
  ℕ, suc, ◌+◌, ◌≤◌, ◌<◌, ◌≡◌, Bool, true, false, Option, none, some, List, [], ◌∷◌, ◌++◌, arith,
  length, ◌⊎◌, inl, inr,
}
use pro_os.Prelude.Arrays.{All, All-append}
use pro_os.Prelude.Int.{ℤ, pos, negsuc, ◌==ℤ◌, is_positive, is_negative, success, int_max}
use pro_os.Sync.{
  Semaphore, Outcome, returns, blocks, max_waiters, join_semaphore, wait_round, woken, post,
  dequeue_waiter,
}
use pro_os.Sync.Waiters.{
  queue, contains, Distinct, waiter_exists-contains, enqueue_waiter_room, enqueue_waiter_full,
  dequeue_waiter_cons, Distinct-append,
}

abbrev pub waiting : Semaphore → List ℤ
waiting x = queue x.waiters x.wait_count

-- The array is never overrun, no process waits twice, and only real pids wait.
pub record IsValid (x : Semaphore) : Type 0 where
  pub room : length x.waiters ≡ max_waiters
  pub bounded : x.wait_count ≤ max_waiters
  pub distinct : Distinct (waiting x)
  pub pids : All (λ p. is_positive p ≡ true) (waiting x)

waiting-join_semaphore :
    (self : ℤ) (x : Semaphore)
    → IsValid x
    → (join_semaphore self x ≡ x)
      ⊎ ((contains (waiting x) self ≡ false)
          × (waiting (join_semaphore self x) ≡ waiting x ++ self ∷ [])
          × ((join_semaphore self x).wait_count ≡ suc x.wait_count)
          × (x.wait_count < max_waiters)
          × (length (join_semaphore self x).waiters ≡ max_waiters))
unfolding join_semaphore
waiting-join_semaphore self x v = ground (
  arith,
  waiter_exists-contains x.waiters x.wait_count self,
  enqueue_waiter_room x.waiters x.wait_count self,
  enqueue_waiter_full x.waiters x.wait_count self,
)

join_semaphore-IsValid :
    (self : ℤ) (x : Semaphore)
    → is_positive self ≡ true
    → IsValid x
    → IsValid (join_semaphore self x)
join_semaphore-IsValid self x q v = elim (waiting-join_semaphore self x v) [
  | inl same ↦ rw same v
  | inr (new, ws, n, space, len) ↦ record {
    room = len;
    bounded = omega arith;
    distinct = rw ws (Distinct-append (waiting x) self v.distinct new);
    pids = rw ws (All-append _ (waiting x) (self ∷ []) v.pids (q, tt));
  }
]

pub wait_round-IsValid :
    (self : ℤ) (x : Semaphore) → is_positive self ≡ true → IsValid x → IsValid (wait_round self x).1
unfolding wait_round
wait_round-IsValid self x q v = ground (arith, join_semaphore-IsValid self x q v)

pub post-IsValid : (x : Semaphore) → IsValid x → IsValid (post x).2
unfolding post
post-IsValid x v = ground (arith, dequeue_waiter_cons x.waiters x.wait_count)

-- A call on one semaphore: a round of `sync_semaphore_wait`, or `sync_semaphore_post`.
pub data Call : Type 0 where
  waits : ℤ → Call
  posts : Call

-- What calls did so far: waits and posts that returned 0, and processes that posts woke.
pub record Ledger : Type 0 where
  pub acquired : ℕ
  pub posted : ℕ
  pub woke : ℕ

abbrev one_if : Bool → ℕ
one_if true = 1
one_if false = 0

abbrev is_success : Outcome → Bool
is_success (returns code) = code ==ℤ success
is_success blocks = false

abbrev is_some : Option ℤ → Bool
is_some none = false
is_some (some p) = true

pub step : Call → Semaphore × Ledger → Semaphore × Ledger
step (waits p) (x, l) =
    let (out, x') = wait_round p x in
    (x', record l { acquired = l.acquired + one_if (is_success out) })
step posts (x, l) =
    let (code, wake, x') = post x in
    (
      x',
      record l {
        posted = l.posted + one_if (code ==ℤ success);
        woke = l.woke + one_if (is_some wake);
      },
    )

pub run : List Call → Semaphore × Ledger → Semaphore × Ledger
unfolding step
run [] s = s
run (c ∷ cs) s = run cs (step c s)

abbrev pub IsPid : Call → Type 0
IsPid (waits p) = is_positive p ≡ true
IsPid posts = Unit {0}

-- The permits that a count stands for
abbrev pub permits : ℤ → ℕ
permits (pos n) = n
permits (negsuc n) = 0

abbrev pub post_count : List Call → ℕ
post_count [] = 0
post_count (waits p ∷ cs) = post_count cs
post_count (posts ∷ cs) = suc (post_count cs)

-- The permits of the semaphore at the start, `n`, and the posts, are the permits left, those
-- acquired, and the posts that woke a process.
pub record Balanced (n : ℕ) (s : Semaphore × Ledger) : Type 0 where
  pub valid : IsValid s.0
  pub not_negative : is_negative s.0.count ≡ false
  pub balance : permits s.0.count + s.1.acquired + s.1.woke ≡ n + s.1.posted

count-join_semaphore : (self : ℤ) (x : Semaphore) → (join_semaphore self x).count ≡ x.count
unfolding join_semaphore
count-join_semaphore self x = ground arith

count-wait_round :
    (p : ℤ) (x : Semaphore)
    → is_negative x.count ≡ false
    → (is_negative (wait_round p x).1.count ≡ false)
      × (permits (wait_round p x).1.count + one_if (is_success (wait_round p x).0)
          ≡ permits x.count)
unfolding wait_round
count-wait_round p x s = ground (arith, count-join_semaphore p x)

woken_pid :
    (w : ℤ) (xs ys : List ℤ) → All (λ p. is_positive p ≡ true) xs → xs ≡ w ∷ ys → woken w ≡ some w
woken_pid w [] ys h e = cc
woken_pid w (x ∷ xs) ys h e = ground arith

-- A post gives the permit to the count, or wakes a process and gives it to nobody.
count-post :
    (x : Semaphore)
    → IsValid x
    → is_negative x.count ≡ false
    → permits x.count < int_max
    → (is_negative (post x).2.count ≡ false)
      × (permits (post x).2.count + one_if (is_some (post x).1)
          ≡ permits x.count + one_if ((post x).0 ==ℤ success))
unfolding post
count-post x v s small = ground (
  arith,
  dequeue_waiter_cons x.waiters x.wait_count,
  woken_pid (dequeue_waiter x.waiters x.wait_count).0 (waiting x)
      (queue (dequeue_waiter x.waiters x.wait_count).1 (dequeue_waiter x.waiters x.wait_count).2)
      v.pids,
)

post_count-first :
    (c : Call) (cs : List Call) → post_count (c ∷ cs) ≡ post_count (c ∷ []) + post_count cs
post_count-first (waits p) cs = omega arith
post_count-first posts cs = omega arith

step-Balanced :
    (n m : ℕ) (c : Call) (s : Semaphore × Ledger)
    → IsPid c
    → n + s.1.posted + post_count (c ∷ []) + m ≤ int_max
    → Balanced n s
    → Balanced n (step c s) × (n + (step c s).1.posted + m ≤ int_max)
unfolding step
step-Balanced n m (waits p) (x, l) q h b =
    let w = count-wait_round p x b.not_negative in
    (
      record {
        valid = wait_round-IsValid p x q b.valid;
        not_negative = w.0;
        balance = omega (arith, w.1, b.balance);
      },
      omega (arith, h),
    )
step-Balanced n m posts (x, l) q h b =
    let w = count-post x b.valid b.not_negative (omega (arith, h, b.balance)) in
    (
      record {
        valid = post-IsValid x b.valid;
        not_negative = w.0;
        balance = omega (arith, w.1, b.balance);
      },
      ground (arith, h),
    )

-- From a well-formed entry whose count is not negative, over any sequence of posts and of waits by processes with
-- a positive pid the entry stays well formed, the count does not become negative, and permits are accounted
-- for: what the count starts with and what is posted is what is left, what was acquired, and one for each process
-- that a post woke. What the count starts with and the posts are at most INT_MAX together.
pub run-Balanced :
    (n : ℕ) (cs : List Call) (s : Semaphore × Ledger)
    → All IsPid cs
    → n + s.1.posted + post_count cs ≤ int_max
    → Balanced n s
    → Balanced n (run cs s)
unfolding run
run-Balanced n [] s q h b = b
run-Balanced n (c ∷ cs) s q h b =
    let w = step-Balanced n (post_count cs) c s q.0 (omega (arith, h, post_count-first c cs)) b in
    run-Balanced n cs (step c s) q.1 w.1 w.0

-- A post on a semaphore with no permits and a waiter wakes the oldest waiter and leaves no permit, so
-- that waiter's next round blocks again.
pub post_wakes_in_vain :
    (x : Semaphore) (w : ℤ) (ws : List ℤ)
    → IsValid x
    → x.used ≡ true
    → x.count ≡ pos 0
    → waiting x ≡ w ∷ ws
    → let (code, wake, x') = post x in
      (code ≡ success) × (wake ≡ some w) × (waiting x' ≡ ws) × ((wait_round w x').0 ≡ blocks)
unfolding post wait_round
post_wakes_in_vain x w ws v u c e =
    ground (arith, dequeue_waiter_cons x.waiters x.wait_count, woken_pid w (waiting x) ws v.pids)
