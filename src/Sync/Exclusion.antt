-- ===== src/Sync/Exclusion.antt =====
-- kernel/sync.c: mutual exclusion, over any sequence of rounds by several processes.
use pro_os.Prelude.{◌≡◌, Bool, true, false, List, [], ◌∷◌, arith}
use pro_os.Prelude.Arrays.{All}
use pro_os.Prelude.Int.{ℤ, ◌==ℤ◌, ==ℤ_iff, ==ℤ_refl, success}
use pro_os.Sync.{Mutex, Outcome, returns, blocks, join_mutex, lock_round, unlock}

-- What a process does to one mutex: a round of `sync_mutex_lock`, or a call of `sync_mutex_unlock`.
pub data Call : Type 0 where
  locks unlocks : ℤ → Call

abbrev pub caller : Call → ℤ
caller (locks p) = p
caller (unlocks p) = p

-- Whether the round returned 0.
abbrev pub is_success : Outcome → Bool
is_success (returns code) = code ==ℤ success
is_success blocks = false

unfoldable pub step : Call → Mutex → Bool × Mutex
step (locks p) m = let (out, m') = lock_round p m in (is_success out, m')
step (unlocks p) m = let (code, _, m') = unlock p m in (code ==ℤ success, m')

pub run : List Call → Mutex → List Bool × Mutex
unfolding step
run [] m = ([], m)
run (c ∷ cs) m = let (done, m') = step c m in let (rest, m'') = run cs m' in (done ∷ rest, m'')

pub record IsHeld (p : ℤ) (m : Mutex) : Type 0 where
  pub used : m.used ≡ true
  pub locked : m.locked ≡ true
  pub owner : m.owner ≡ p

step-IsHeld :
    (p : ℤ) (c : Call) (m : Mutex)
    → IsHeld p m
    → (p ==ℤ caller c) ≡ false
    → ((step c m).0 ≡ false) × IsHeld p (step c m).1
unfolding step lock_round join_mutex unlock
step-IsHeld p (locks q) m h ne = ground arith
step-IsHeld p (unlocks q) m h ne = ground arith

run-IsHeld :
    (p : ℤ) (cs : List Call) (m : Mutex)
    → IsHeld p m
    → All (λ c. (p ==ℤ caller c) ≡ false) cs
    → All (λ done. done ≡ false) (run cs m).0 × IsHeld p (run cs m).1
unfolding run
run-IsHeld p [] m h a = (tt, h)
run-IsHeld p (c ∷ cs) m h a =
    let first = step-IsHeld p c m h a.0 in
    let rest = run-IsHeld p cs (step c m).1 first.1 a.1 in ((first.0, rest.0), rest.1)

locks-IsHeld : (p : ℤ) (m : Mutex) → (step (locks p) m).0 ≡ true → IsHeld p (step (locks p) m).1
unfolding step lock_round
locks-IsHeld p m s = ground (arith, ==ℤ_iff m.owner p)

unlocks-IsHeld : (p : ℤ) (m : Mutex) → IsHeld p m → (step (unlocks p) m).0 ≡ true
unfolding step unlock
unlocks-IsHeld p m h = ground (arith, ==ℤ_refl p)

-- Once a round of `sync_mutex_lock` by `p` has returned 0, no lock or unlock by other processes
-- returns 0, in any order and number, and then the unlock by `p` does.
pub lock_excludes :
    (p : ℤ) (cs : List Call) (m : Mutex)
    → (step (locks p) m).0 ≡ true
    → All (λ c. (p ==ℤ caller c) ≡ false) cs
    → let (dones, m') = run cs (step (locks p) m).1 in
      All (λ done. done ≡ false) dones × IsHeld p m' × ((step (unlocks p) m').0 ≡ true)
lock_excludes p cs m s a =
    let others = run-IsHeld p cs (step (locks p) m).1 (locks-IsHeld p m s) a in
    (others.0, others.1, unlocks-IsHeld p (run cs (step (locks p) m).1).1 others.1)
