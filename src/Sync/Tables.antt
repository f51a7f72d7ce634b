-- ===== src/Sync/Tables.antt =====
-- The tables of kernel/sync.c under all of its calls.
use pro_os.Prelude.{
  ◌⊎◌, ℕ, ◌<◌, ◌≡◌, refl, true, false, not, Option, none, some, List, [], ◌∷◌, arith, length,
  get_or, set, length-set, length-map, map, inl, inr, Option-cases,
}
use pro_os.Prelude.Arrays.{All, All-get_or, All-set, find_index, find_index-Found, find_index-none}
use pro_os.Prelude.Int.{ℤ, pos, negsuc, is_positive, failure}
use pro_os.Sync.{
  Mutex, Semaphore, Sync, max_mutexes, max_semaphores, no_mutex, no_semaphore, init, reset_mutex,
  reset_semaphore, mutex_create, fresh_mutex, mutex_lock, mutex_unlock, semaphore_create,
  fresh_semaphore, semaphore_wait, semaphore_post, index_of,
}
use pro_os.Sync.Mutexes
use pro_os.Sync.Semaphores

-- Both tables have their size, and every entry its invariant.
pub record IsSound (s : Sync) : Type 0 where
  pub mutex_room : length s.mutexes ≡ max_mutexes
  pub semaphore_room : length s.semaphores ≡ max_semaphores
  pub mutexes_valid : All Mutexes.IsValid s.mutexes
  pub semaphores_valid : All Semaphores.IsValid s.semaphores

-- The calls of kernel/sync.h, each with the pid of the process that makes it.
pub data Call : Type 0 where
  inits creates_mutex : Call
  locks unlocks : Option ℤ → ℤ → Call
  creates_semaphore : ℤ → Call
  waits : Option ℤ → ℤ → Call
  posts : ℤ → Call

pub step : Call → Sync → Sync
step inits s = init s
step creates_mutex s = (mutex_create s).1
step (locks current id) s = (mutex_lock current id s).1
step (unlocks current id) s = (mutex_unlock current id s).2
step (creates_semaphore n) s = (semaphore_create n s).1
step (waits current id) s = (semaphore_wait current id s).1
step (posts id) s = (semaphore_post id s).2

-- Only processes with a positive pid wait.
abbrev pub IsPid : Call → Type 0
IsPid (waits (some p) id) = is_positive p ≡ true
IsPid c = Unit {0}

pub no_mutex-IsValid : Mutexes.IsValid no_mutex
no_mutex-IsValid = record {
  room = refl;
  bounded = omega arith;
  distinct = tt;
  idle = λ e. refl;
  apart = λ e. cc;
}

pub no_semaphore-IsValid : Semaphores.IsValid no_semaphore
no_semaphore-IsValid = record { room = refl; bounded = omega arith; distinct = tt; pids = tt }

with_mutex :
    (s : Sync) (i : ℕ) (m : Mutex)
    → IsSound s
    → Mutexes.IsValid m
    → IsSound (record s { mutexes = set s.mutexes i m })
with_mutex s i m h v = record {
  mutex_room = omega (arith, length-set s.mutexes i m, h.mutex_room);
  semaphore_room = h.semaphore_room;
  mutexes_valid = All-set Mutexes.IsValid s.mutexes i m h.mutexes_valid v;
  semaphores_valid = h.semaphores_valid;
}

with_semaphore :
    (s : Sync) (i : ℕ) (x : Semaphore)
    → IsSound s
    → Semaphores.IsValid x
    → IsSound (record s { semaphores = set s.semaphores i x })
with_semaphore s i x h v = record {
  mutex_room = h.mutex_room;
  semaphore_room = omega (arith, length-set s.semaphores i x, h.semaphore_room);
  mutexes_valid = h.mutexes_valid;
  semaphores_valid = All-set Semaphores.IsValid s.semaphores i x h.semaphores_valid v;
}

mutex_at : (s : Sync) (i : ℕ) → IsSound s → Mutexes.IsValid (get_or s.mutexes i no_mutex)
mutex_at s i h = All-get_or Mutexes.IsValid s.mutexes i no_mutex h.mutexes_valid no_mutex-IsValid

semaphore_at :
    (s : Sync) (i : ℕ) → IsSound s → Semaphores.IsValid (get_or s.semaphores i no_semaphore)
semaphore_at s i h =
    All-get_or Semaphores.IsValid s.semaphores i no_semaphore h.semaphores_valid
      no_semaphore-IsValid

fresh_mutex-IsValid : (m : Mutex) → Mutexes.IsValid m → Mutexes.IsValid (fresh_mutex m)
unfolding fresh_mutex
fresh_mutex-IsValid m v = ground arith

fresh_semaphore-IsValid :
    (n : ℤ) (x : Semaphore) → Semaphores.IsValid x → Semaphores.IsValid (fresh_semaphore n x)
unfolding fresh_semaphore
fresh_semaphore-IsValid n x v = ground arith

reset_mutexes :
    (ms : List Mutex) → All Mutexes.IsValid ms → All Mutexes.IsValid (map reset_mutex ms)
unfolding reset_mutex
reset_mutexes [] h = tt
reset_mutexes (m ∷ ms) h = (ground arith, reset_mutexes ms h.1)

reset_semaphores :
    (xs : List Semaphore)
    → All Semaphores.IsValid xs
    → All Semaphores.IsValid (map reset_semaphore xs)
unfolding reset_semaphore
reset_semaphores [] h = tt
reset_semaphores (x ∷ xs) h = (ground arith, reset_semaphores xs h.1)

init-IsSound : (s : Sync) → IsSound s → IsSound (init s)
unfolding init
init-IsSound s h = record {
  mutex_room = omega (arith, length-map s.mutexes reset_mutex, h.mutex_room);
  semaphore_room = omega (arith, length-map s.semaphores reset_semaphore, h.semaphore_room);
  mutexes_valid = reset_mutexes s.mutexes h.mutexes_valid;
  semaphores_valid = reset_semaphores s.semaphores h.semaphores_valid;
}

mutex_create-IsSound : (s : Sync) → IsSound s → IsSound (mutex_create s).1
unfolding mutex_create
mutex_create-IsSound s h = elim (Option-cases (find_index (λ m. not m.used) s.mutexes)) [
  | inl e ↦ rw (e, mutex_create) h
  | inr (i, e) ↦ rw (e, mutex_create) (with_mutex s i _ h (fresh_mutex-IsValid _ (mutex_at s i h)))
]

semaphore_create-IsSound : (n : ℤ) (s : Sync) → IsSound s → IsSound (semaphore_create n s).1
unfolding semaphore_create
semaphore_create-IsSound (negsuc n) s h = h
semaphore_create-IsSound (pos n) s h =
    elim (Option-cases (find_index (λ x. not x.used) s.semaphores)) [
      | inl e ↦ rw (e, semaphore_create) h
      | inr (i, e) ↦
          rw (e, semaphore_create)
            (with_semaphore s i _ h (fresh_semaphore-IsValid (pos n) _ (semaphore_at s i h)))
    ]

mutex_lock-IsSound : (c : Option ℤ) (id : ℤ) (s : Sync) → IsSound s → IsSound (mutex_lock c id s).1
unfolding mutex_lock
mutex_lock-IsSound none id s h = elim (Option-cases (index_of max_mutexes id)) [
  | inl e ↦ rw (e, mutex_lock) h
  | inr (i, e) ↦ rw (e, mutex_lock) h
]
mutex_lock-IsSound (some p) id s h = elim (Option-cases (index_of max_mutexes id)) [
  | inl e ↦ rw (e, mutex_lock) h
  | inr (i, e) ↦
      rw (e, mutex_lock) (with_mutex s i _ h (Mutexes.lock_round-IsValid p _ (mutex_at s i h)))
]

mutex_unlock-IsSound :
    (c : Option ℤ) (id : ℤ) (s : Sync) → IsSound s → IsSound (mutex_unlock c id s).2
unfolding mutex_unlock
mutex_unlock-IsSound none id s h = elim (Option-cases (index_of max_mutexes id)) [
  | inl e ↦ rw (e, mutex_unlock) h
  | inr (i, e) ↦ rw (e, mutex_unlock) h
]
mutex_unlock-IsSound (some p) id s h = elim (Option-cases (index_of max_mutexes id)) [
  | inl e ↦ rw (e, mutex_unlock) h
  | inr (i, e) ↦
      rw (e, mutex_unlock) (with_mutex s i _ h (Mutexes.unlock-IsValid p _ (mutex_at s i h)))
]

semaphore_wait-IsSound :
    (c : Option ℤ) (id : ℤ) (s : Sync)
    → IsPid (waits c id)
    → IsSound s
    → IsSound (semaphore_wait c id s).1
unfolding semaphore_wait
semaphore_wait-IsSound none id s q h = elim (Option-cases (index_of max_semaphores id)) [
  | inl e ↦ rw (e, semaphore_wait) h
  | inr (i, e) ↦ rw (e, semaphore_wait) h
]
semaphore_wait-IsSound (some p) id s q h = elim (Option-cases (index_of max_semaphores id)) [
  | inl e ↦ rw (e, semaphore_wait) h
  | inr (i, e) ↦
      rw (e, semaphore_wait)
        (with_semaphore s i _ h (Semaphores.wait_round-IsValid p _ q (semaphore_at s i h)))
]

semaphore_post-IsSound : (id : ℤ) (s : Sync) → IsSound s → IsSound (semaphore_post id s).2
unfolding semaphore_post
semaphore_post-IsSound id s h = elim (Option-cases (index_of max_semaphores id)) [
  | inl e ↦ rw (e, semaphore_post) h
  | inr (i, e) ↦
      rw (e, semaphore_post)
        (with_semaphore s i _ h (Semaphores.post-IsValid _ (semaphore_at s i h)))
]

-- Every call of kernel/sync.h, by whatever process and with whatever id, keeps every mutex and
-- semaphore well formed: no wait queue overruns its array, and no process waits twice, or for a mutex
-- that it owns.
pub step-IsSound : (c : Call) (s : Sync) → IsPid c → IsSound s → IsSound (step c s)
unfolding step
step-IsSound inits s q h = init-IsSound s h
step-IsSound creates_mutex s q h = mutex_create-IsSound s h
step-IsSound (locks current id) s q h = mutex_lock-IsSound current id s h
step-IsSound (unlocks current id) s q h = mutex_unlock-IsSound current id s h
step-IsSound (creates_semaphore n) s q h = semaphore_create-IsSound n s h
step-IsSound (waits current id) s q h = semaphore_wait-IsSound current id s q h
step-IsSound (posts id) s q h = semaphore_post-IsSound id s h

-- `sync_mutex_create` gives out the first entry that is not in use, free and with nobody waiting, and
-- touches no other entry; it fails only when every entry is in use, and then changes nothing.
pub mutex_create_lem :
    (s : Sync)
    → ((i : ℕ) × ((mutex_create s).0 ≡ pos i)
        × (i < length s.mutexes)
        × ((get_or s.mutexes i no_mutex).used ≡ false)
        × ((j : ℕ) → j < i → (get_or s.mutexes j no_mutex).used ≡ true)
        × ((mutex_create s).1 ≡ record s {
          mutexes = set s.mutexes i (record (get_or s.mutexes i no_mutex) {
            used = true;
            locked = false;
            owner = failure;
            wait_count = 0;
          });
        }))
      ⊎ (((mutex_create s).0 ≡ failure)
          × ((mutex_create s).1 ≡ s)
          × ((j : ℕ) → j < length s.mutexes → (get_or s.mutexes j no_mutex).used ≡ true))
unfolding mutex_create
mutex_create_lem s = elim (Option-cases (find_index (λ m. not m.used) s.mutexes)) [
  | inl e ↦ inr (
    rw (e, mutex_create),
    rw (e, mutex_create),
    λ j h. ground (arith, find_index-none (λ m. not m.used) s.mutexes j no_mutex e h),
  )
  | inr (i, e) ↦
      let f = find_index-Found (λ m. not m.used) s.mutexes i e in
      inl (
        i,
        rw (e, mutex_create),
        f.in_table,
        ground (arith, f.passes no_mutex),
        λ j h. ground (arith, f.first j no_mutex h),
        rw (e, mutex_create),
      )
]
