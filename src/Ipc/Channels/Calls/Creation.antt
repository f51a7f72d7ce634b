-- ===== src/Ipc/Channels/Calls/Creation.antt =====
-- kernel/ipc.c: the ids that `ipc_channel_create` gives out.
use pro_os.Prelude.{
  ℕ, zero, suc, ◌+◌, ◌<◌, ◌≡◌, ◌≢◌, refl, Bool, true, false, not, ◌&&◌, ◌⊎◌, inl, inr, Option, some,
  List, [], ◌∷◌, arith, length, get_or, set, Option-cases,
}
use pro_os.Prelude.Arrays.{
  All, All-set, find_index, find_index-set, find_index-Found, find_index-none,
}
use pro_os.Prelude.Int.{ℤ, pos, negsuc, ◌==ℤ◌, ==ℤ_refl, is_positive, failure}
use pro_os.Ipc.Channels.{Channel, Channels, no_channel, find_channel}
use pro_os.Ipc.Channels.Calls.{opened, channel_create}

-- An entry is unused, or has an id below `n`.
abbrev pub IsNumbered : ℕ → Channel → Type 0
IsNumbered n c = (c.used ≡ false) ⊎ ((k : ℕ) × (c.id ≡ pos k) × (k < n))

find_index-put {ℓ} :
    {A : Type ℓ} (test : A → Bool) (xs : List A) (i : ℕ) (v : A)
    → All (λ x. test x ≡ false) xs
    → i < length xs
    → test v ≡ true
    → find_index test (set xs i v) ≡ some i
unfolding find_index
find_index-put test [] i v h l t = absurd (omega arith)
find_index-put test (x ∷ xs) zero v h l t = rw t refl
find_index-put test (x ∷ xs) (suc i) v h l t =
    rw (h.0, find_index-put test xs i v h.1 (omega arith) t) refl

All-map {ℓ κ μ} :
    {A : Type ℓ} (P : A → Type κ) (Q : A → Type μ)
    → ((x : A) → P x → Q x)
    → (xs : List A) → All P xs
    → All Q xs
All-map P Q f [] h = tt
All-map P Q f (x ∷ xs) h = (f x h.0, All-map P Q f xs h.1)

not_yet : (n : ℕ) (c : Channel) → IsNumbered n c → (c.used && (c.id ==ℤ pos n)) ≡ false
not_yet n c (inl e) = rw e refl
not_yet n c (inr (k, e, h)) = rw e (ground arith)

next_number : (n : ℕ) (c : Channel) → IsNumbered n c → IsNumbered (n + 1) c
next_number n c (inl e) = inl e
next_number n c (inr (k, e, h)) = inr (k, e, omega arith)

other_id : (n : ℕ) (other : ℤ) → other ≢ pos n → (pos n ==ℤ other) ≡ false
other_id n (pos k) h = ground arith
other_id n (negsuc k) h = refl

not-true : {b : Bool} → not b ≡ true → b ≡ false
not-true {b = true} e = ground arith
not-true {b = false} e = refl

not-false : {b : Bool} → not b ≡ false → b ≡ true
not-false {b = true} e = refl
not-false {b = false} e = ground arith

-- A new channel is found under its id.
find_new :
    (s : Channels) (i : ℕ) (name : Option (List ℕ)) (len flags : ℕ)
    → 0 < s.next_id
    → All (IsNumbered s.next_id) s.table
    → i < length s.table
    → find_channel
        (pos s.next_id)
        (set s.table i (opened (get_or s.table i no_channel) (pos s.next_id) name len flags))
      ≡ some i
unfolding find_channel opened
find_new s i name len flags h v l =
    let p : is_positive (pos s.next_id) ≡ true = ground arith in
    rw p (
      find_index-put (λ c. c.used && (c.id ==ℤ pos s.next_id)) s.table i
        (opened (get_or s.table i no_channel) (pos s.next_id) name len flags)
        (All-map (IsNumbered s.next_id) (λ c. (c.used && (c.id ==ℤ pos s.next_id)) ≡ false)
          (not_yet s.next_id) s.table v)
        l (==ℤ_refl (pos s.next_id)))

-- Every other channel is found where it was.
find_other :
    (s : Channels) (i : ℕ) (name : Option (List ℕ)) (len flags : ℕ) (other : ℤ)
    → (get_or s.table i no_channel).used ≡ false
    → other ≢ pos s.next_id
    → find_channel other
        (set s.table i (opened (get_or s.table i no_channel) (pos s.next_id) name len flags))
      ≡ find_channel other s.table
unfolding find_channel opened
find_other s i name len flags other unused ne =
    rw
      (find_index-set (λ c. c.used && (c.id ==ℤ other)) s.table i
        (opened (get_or s.table i no_channel) (pos s.next_id) name len flags) no_channel
        (rw (unused, other_id s.next_id other ne) refl))
      refl

-- How `ipc_channel_create` ends.
pub data Creates (s : Channels) : ℤ × Channels → Type 0 where
  table_full :
      ((i : ℕ) → i < length s.table → (get_or s.table i no_channel).used ≡ true)
      → Creates s (failure, s)
  creates :
      {i : ℕ} {s' : Channels}
      → (get_or s.table i no_channel).used ≡ false
      → find_channel (pos s.next_id) s'.table ≡ some i
      → ((other : ℤ)
          → other ≢ pos s.next_id
          → find_channel other s'.table ≡ find_channel other s.table)
      → s'.next_id ≡ s.next_id + 1
      → All (IsNumbered s'.next_id) s'.table
      → Creates s (pos s.next_id, s')

-- `ipc_channel_create` fails only when every entry is in use, and then changes nothing; otherwise it
-- returns an id that no channel has, under which the new channel is found, while every other id
-- leads to the same entry as before. Ids stay below the next one. (The counter is not wrapped.)
pub channel_create_lem :
    (name : Option (List ℕ)) (len flags : ℕ) (s : Channels)
    → 0 < s.next_id
    → All (IsNumbered s.next_id) s.table
    → Creates s (channel_create name len flags s)
unfolding channel_create opened
channel_create_lem name len flags s h v =
    elim (Option-cases (find_index (λ c. not c.used) s.table)) [
      | inl e ↦
          rw (e, channel_create)
            (table_full
              (λ i l. not-false (find_index-none (λ c. not c.used) s.table i no_channel e l)))
      | inr (i, e) ↦
          let f = find_index-Found (λ c. not c.used) s.table i e in
          let unused = not-true (f.passes no_channel) in
          let c : Channel = opened (get_or s.table i no_channel) (pos s.next_id) name len flags in
          let grown =
            All-map (IsNumbered s.next_id) (IsNumbered (s.next_id + 1)) (next_number s.next_id)
              s.table v in
          rw (e, channel_create)
            (creates unused (find_new s i name len flags h v f.in_table)
              (λ other ne. find_other s i name len flags other unused ne) refl
              (All-set (IsNumbered (s.next_id + 1)) s.table i c grown
                (inr (s.next_id, refl, omega arith))))
    ]
