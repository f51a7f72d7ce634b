-- ===== src/Inet/Icmp/Replies.antt =====
-- The table of echo replies of kernel/icmp.c against a bounded queue.
use native.Mathlib.Numerals.{add-one}
use pro_os.Prelude.{
  ℕ, suc, ◌+◌, ◌-◌, ◌<◌, ◌≤◌, ◌≡◌, refl, sym, ◌∙◌, ap, Bool, true, false, Option, none, some, List,
  [], ◌∷◌, ◌++◌, arith, leb, ltb, ◌==◌, if◌then◌else◌, length, get_or, take, drop, remove_at,
  length-take, length-set, Bool-cases, inl, inr,
}
use pro_os.Prelude.Arrays.{
  shift_down, length-shift_down, take-shift_down, take-set_end, get_or-take, find_index,
  find_index-Found, first, first_some, first_none,
}
use pro_os.Inet.{Reply, Net}
use pro_os.Inet.Icmp.{
  reply_capacity, no_reply, drop_first, append_reply, record_reply, take_reply_at, is_reply,
  take_found, take_reply, take_any_reply,
}

-- The table has its eight places, and no more of them are in use.
pub record IsTable (s : Net) : Type 0 where
  pub room : length s.replies ≡ reply_capacity
  pub bounded : s.reply_count ≤ reply_capacity

-- The replies in the table, oldest first.
unfoldable pub queue : Net → List Reply
queue s = take s.reply_count s.replies

-- The specification: a queue of eight, which drops its oldest reply to take a new one.
abbrev pub enqueue : Reply → List Reply → List Reply
enqueue r q = (if length q == reply_capacity then drop 1 q else q) ++ r ∷ []

length-queue : (s : Net) → IsTable s → length (queue s) ≡ s.reply_count
unfolding queue
length-queue s v = omega (arith, length-take s.reply_count s.replies, v.room, v.bounded)

-- Place `i` of the `n` in use is taken out by moving the others up.
take-shift :
    (xs : List Reply) (i n : ℕ)
    → i < n
    → n ≤ length xs
    → take (n - 1) (shift_down no_reply xs i (n - (i + 1))) ≡ remove_at i (take n xs)
take-shift xs i n h l =
    let e : n ≡ suc (n - 1) = omega arith in
    take-shift_down no_reply xs i (n - (i + 1)) (n - 1) (omega arith) (omega arith)
    ∙ ap (λ k. remove_at i (take k xs)) (sym e)

take_reply_at_lem :
    (i : ℕ) (s : Net)
    → IsTable s
    → i < s.reply_count
    → let (r, s') = take_reply_at i s in
      IsTable s' × (r ≡ some (get_or (queue s) i no_reply)) × (queue s' ≡ remove_at i (queue s))
unfolding take_reply_at queue
take_reply_at_lem i s v h =
    let c : leb s.reply_count i ≡ false = ground arith in
    rw c (
      record {
        room =
            omega (arith, length-shift_down no_reply s.replies i (s.reply_count - (i + 1)), v.room);
        bounded = omega (arith, v.bounded);
      },
      ap some (sym (get_or-take s.replies s.reply_count i no_reply h)),
      take-shift s.replies i s.reply_count h (omega (arith, v.room, v.bounded)),
    )

remove_front : (q : List Reply) → remove_at 0 q ≡ drop 1 q
remove_front [] = refl
remove_front (r ∷ q) = refl

drop_first_lem :
    (s : Net)
    → IsTable s
    → IsTable (drop_first s)
      × (drop_first s).reply_count < reply_capacity
      × (queue (drop_first s)
          ≡ (if length (queue s) == reply_capacity then drop 1 (queue s) else queue s))
unfolding drop_first queue
drop_first_lem s v = elim (Bool-cases (leb reply_capacity s.reply_count)) [
  | inl full ↦
      let n : s.reply_count ≡ reply_capacity = ground (arith, full, v.bounded) in
      let l : (length (queue s) == reply_capacity) ≡ true = ground (arith, length-queue s v, n) in
      rw (full, l)
        (
          record {
            room =
                omega (arith, length-shift_down no_reply s.replies 0 (s.reply_count - 1), v.room);
            bounded = omega (arith, v.bounded);
          },
          omega (arith, n),
          (take-shift s.replies 0 s.reply_count (omega (arith, n)) (omega (arith, v.room, n))
              ∙ remove_front (queue s)),
        )
  | inr space ↦
      let l : (length (queue s) == reply_capacity) ≡ false =
        ground (arith, length-queue s v, space) in
      rw (space, l) (v, ground (arith, space), refl)
]

append_reply_lem :
    (r : Reply) (s : Net)
    → IsTable s
    → s.reply_count < reply_capacity
    → IsTable (append_reply r s) × (queue (append_reply r s) ≡ queue s ++ r ∷ [])
unfolding append_reply queue
append_reply_lem r s v h = (
  record {
    room = omega (arith, length-set s.replies s.reply_count r, v.room);
    bounded = omega arith;
  },
  rw (add-one s.reply_count) (take-set_end s.replies s.reply_count r (omega (arith, v.room))),
)

-- A recorded reply goes to the end of the queue; a full queue loses its oldest reply for it.
pub record_reply_refines :
    (identifier sequence : ℕ) (src : List ℕ) (s : Net)
    → IsTable s
    → let s' = record_reply identifier sequence src s in
      IsTable s'
      × (queue s'
          ≡ enqueue
              (record { identifier = identifier; sequence = sequence; src_ipv4 = src })
              (queue s))
unfolding record_reply
record_reply_refines identifier sequence src s v =
    let d = drop_first_lem s v in
    let r : Reply = record { identifier = identifier; sequence = sequence; src_ipv4 = src } in
    let a = append_reply_lem r (drop_first s) d.0 d.1 in (a.0, a.1 ∙ ap (λ q. q ++ r ∷ []) d.2)

take_found_lem :
    (o : Option ℕ) (p : Reply → Bool) (s : Net)
    → IsTable s
    → find_index p (queue s) ≡ o
    → let (r, s') = take_found o s in IsTable s' × (first p (queue s) ≡ (r, queue s'))
unfolding take_found
take_found_lem none p s v e = (v, first_none p (queue s) e)
take_found_lem (some i) p s v e =
    let f = find_index-Found p (queue s) i e in
    let t = take_reply_at_lem i s v (omega (arith, f.in_table, length-queue s v)) in
    (t.0, rw (t.1, t.2) (first_some p (queue s) i no_reply e))

-- The call takes the first reply with the two numbers out of the queue, and no other; without such a
-- reply it answers that there is none and leaves the queue.
pub take_reply_refines :
    (identifier sequence : ℕ) (s : Net)
    → IsTable s
    → let (r, s') = take_reply identifier sequence s in
      IsTable s' × (first (is_reply identifier sequence) (queue s) ≡ (r, queue s'))
unfolding take_reply queue
take_reply_refines identifier sequence s v =
    take_found_lem (find_index (is_reply identifier sequence) (queue s))
      (is_reply identifier sequence) s v refl

find_index_any : (q : List Reply) → 0 < length q → find_index (λ _. true) q ≡ some 0
unfolding find_index
find_index_any [] h = absurd (omega arith)
find_index_any (r ∷ q) h = refl

find_index_nothing : (q : List Reply) → length q ≡ 0 → find_index (λ _. true) q ≡ none
unfolding find_index
find_index_nothing [] h = refl
find_index_nothing (r ∷ q) h = absurd (omega arith)

-- Without numbers the call takes the oldest reply.
pub take_any_reply_refines :
    (s : Net)
    → IsTable s
    → let (r, s') = take_any_reply s in IsTable s' × (first (λ _. true) (queue s) ≡ (r, queue s'))
unfolding take_any_reply take_found
take_any_reply_refines s v = elim (Bool-cases (ltb 0 s.reply_count)) [
  | inl y ↦ rw y (
      take_found_lem (some 0) (λ _. true) s v
        (find_index_any (queue s) (ground (arith, y, length-queue s v))))
  | inr n ↦ rw n (
      take_found_lem none (λ _. true) s v
        (find_index_nothing (queue s) (ground (arith, n, length-queue s v))))
]
