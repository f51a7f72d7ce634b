-- ===== src/Klog/Ring.antt =====
-- The ring of kernel/klog.c against a bounded list of numbered entries.
use native.Mathlib.Numerals.{add-one}
use mathlib.Core.List.{append_assoc, append-nil}
use pro_os.Prelude.{
  ℕ, zero, suc, ◌+◌, ◌-◌, ◌%◌, ◌^◌, ◌<◌, ◌≤◌, ◌≡◌, refl, sym, subst, ◌∙◌, ap, true, false, Option,
  none, some, List, [], ◌∷◌, ◌++◌, arith, min, ltb, ◌==◌, if◌then◌else◌, length, get_or, set, take,
  drop, length-set, length-replicate, Bool-cases, inl, inr, take_front_part, take_all,
}
use pro_os.Prelude.Int.{ℤ}
use pro_os.Prelude.Rings.{live, length-live, live-set_tail, live-next}
use pro_os.Klog.{
  Entry, Log, capacity, no_entry, init, ensure_ready, start, sanitize, threshold, is_below,
  store_entry, new_entry, emit_tagged, copy_from, copy_entries,
}

-- The indices describe a ring.
pub record IsLog (log : Log) : Type 0 where
  pub room : length log.buffer ≡ capacity
  pub head_in : log.head < capacity
  pub bounded : log.count ≤ capacity

-- The entries in the ring, oldest first.
unfoldable pub entries : Log → List Entry
entries log = live no_entry capacity log.buffer (start log) log.count

-- The specification: the last 128 entries.
unfoldable pub remember : Entry → List Entry → List Entry
remember e es = (if length es == capacity then drop 1 es else es) ++ e ∷ []

length-entries : (log : Log) → length (entries log) ≡ log.count
unfolding entries
length-entries log = length-live no_entry capacity log.buffer (start log) log.count

-- What a store does to a ring that is not full, and to a full one.
entries-store_space :
    (e : Entry) (log : Log)
    → IsLog log
    → log.count < capacity
    → entries (store_entry e log) ≡ entries log ++ e ∷ []
unfolding entries store_entry
entries-store_space e log v h =
    let c : ltb log.count capacity ≡ true = ground arith in
    let at : log.head ≡ (start log + log.count) % capacity = omega (arith, v.head_in) in
    let from : ((log.head + 1) % capacity + capacity - (log.count + 1)) % capacity ≡ start log =
      omega (arith, v.head_in) in
    rw (c, from, add-one log.count)
      (subst
        (λ i.
          live no_entry capacity (set log.buffer i e) (start log) (suc log.count)
          ≡ live no_entry capacity log.buffer (start log) log.count ++ e ∷ [])
        (sym at)
        (live-set_tail no_entry capacity log.buffer (start log) log.count e v.room (omega arith) h))

-- The write at the head of a full ring: the oldest entry is replaced, and the next one is the oldest.
live-overwrite :
    (xs : List Entry) (h n : ℕ) (e : Entry)
    → length xs ≡ capacity
    → h < capacity
    → suc n ≡ capacity
    → live no_entry capacity (set xs h e) ((h + 1) % capacity) (suc n)
      ≡ drop 1 (live no_entry capacity xs h (suc n)) ++ e ∷ []
live-overwrite xs h n e l hh hn =
    let at : ((h + 1) % capacity + n) % capacity ≡ h = omega arith in
    subst
      (λ i.
        live no_entry capacity (set xs i e) ((h + 1) % capacity) (suc n)
        ≡ live no_entry capacity xs ((h + 1) % capacity) n ++ e ∷ [])
      at (live-set_tail no_entry capacity xs ((h + 1) % capacity) n e l (omega arith) (omega arith))
    ∙ ap (λ es. drop 1 es ++ e ∷ []) (sym (live-next no_entry capacity xs h n hh))

entries-store_full :
    (e : Entry) (log : Log)
    → IsLog log
    → log.count ≡ capacity
    → entries (store_entry e log) ≡ drop 1 (entries log) ++ e ∷ []
unfolding entries store_entry
entries-store_full e log v h =
    let c : ltb log.count capacity ≡ false = ground arith in
    let n : log.count ≡ suc (log.count - 1) = omega arith in
    let from : start log ≡ log.head = omega (arith, v.head_in) in
    let next : ((log.head + 1) % capacity + capacity - log.count) % capacity
        ≡ (log.head + 1) % capacity =
      omega (arith, v.head_in) in
    rw (c, from, next)
      (subst
        (λ k.
          live no_entry capacity (set log.buffer log.head e) ((log.head + 1) % capacity) k
          ≡ drop 1 (live no_entry capacity log.buffer log.head k) ++ e ∷ [])
        (sym n)
        (live-overwrite log.buffer log.head (log.count - 1) e v.room v.head_in (omega arith)))

store_entry-IsLog : (e : Entry) (log : Log) → IsLog log → IsLog (store_entry e log)
unfolding store_entry
store_entry-IsLog e log v = record {
  room = omega (arith, length-set log.buffer log.head e, v.room);
  head_in = omega arith;
  bounded = ground (arith, v.bounded);
}

store_entry-sequence : (e : Entry) (log : Log) → (store_entry e log).sequence ≡ log.sequence
unfolding store_entry
store_entry-sequence e log = refl

-- A store appends the entry; a full ring loses its oldest entry for it.
pub store_entry_refines :
    (e : Entry) (log : Log)
    → IsLog log
    → IsLog (store_entry e log) × (entries (store_entry e log) ≡ remember e (entries log))
unfolding remember
store_entry_refines e log v = (
  store_entry-IsLog e log v,
  elim (Bool-cases (log.count == capacity)) [
    | inl full ↦ rw (length-entries log, full) (entries-store_full e log v (ground arith))
    | inr space ↦
        rw (length-entries log, space) (entries-store_space e log v (ground (arith, v.bounded)))
  ],
)

-- What `klog_copy` writes is the front of the list of entries.
copy_from-live :
    (xs : List Entry) (h i n : ℕ)
    → live no_entry capacity xs h i ++ copy_from xs h i n ≡ live no_entry capacity xs h (i + n)
unfolding copy_from
copy_from-live xs h i zero =
    let e : i ≡ i + 0 = omega arith in
    append-nil (live no_entry capacity xs h i) ∙ ap (live no_entry capacity xs h) e
copy_from-live xs h i (suc n) =
    let e : suc i + n ≡ i + suc n = omega arith in
    sym (
      append_assoc (live no_entry capacity xs h i) (get_or xs ((h + i) % capacity) no_entry ∷ [])
        (copy_from xs h (suc i) n))
    ∙ copy_from-live xs h (suc i) n
    ∙ ap (live no_entry capacity xs h) e

live-take :
    (xs : List Entry) (h i n : ℕ)
    → live no_entry capacity xs h i ≡ take i (live no_entry capacity xs h (i + n))
live-take xs h i n =
    sym (
      take_front_part (live no_entry capacity xs h i) (copy_from xs h i n) i
        (length-live no_entry capacity xs h i))
    ∙ ap (take i) (copy_from-live xs h i n)

live-min :
    (xs : List Entry) (h n max : ℕ)
    → live no_entry capacity xs h (0 + min n max) ≡ take max (live no_entry capacity xs h n)
live-min xs h n max = elim (Bool-cases (ltb max n)) [
  | inl less ↦
      let e : 0 + min n max ≡ max = ground arith in
      let w : max + (n - max) ≡ n = ground arith in
      rw e (live-take xs h max (n - max) ∙ ap (λ k. take max (live no_entry capacity xs h k)) w)
  | inr all ↦
      let e : 0 + min n max ≡ n = ground arith in
      rw e (
        sym (
          take_all max (live no_entry capacity xs h n)
            (ground (arith, length-live no_entry capacity xs h n, all))))
]

init-IsLog : (log : Log) → IsLog (init log)
unfolding init
init-IsLog log = record {
  room = length-replicate capacity no_entry;
  head_in = omega arith;
  bounded = omega arith;
}

-- The log after the call that each operation begins with.
pub ensure_ready-IsLog : (log : Log) → (log.ready ≡ true → IsLog log) → IsLog (ensure_ready log)
unfolding ensure_ready
ensure_ready-IsLog log v = elim (Bool-cases log.ready) [
  | inl y ↦ subst (λ b. IsLog (if b then log else init log)) (sym y) (v y)
  | inr n ↦ subst (λ b. IsLog (if b then log else init log)) (sym n) (init-IsLog log)
]

-- `klog_copy` gives the oldest entries, as many as fit.
pub copy_entries_lem :
    (max : ℕ) (log : Log) → copy_entries max log ≡ take max (entries (ensure_ready log))
unfolding copy_entries entries
copy_entries_lem max log =
    let b : Log = ensure_ready log in
    copy_from-live b.buffer (start b) 0 (min b.count max) ∙ live-min b.buffer (start b) b.count max

-- A message below the threshold of its module leaves the log. Any other is the newest entry, with the
-- next number and its texts cut to size; the oldest entry goes if there were 128. A log that was not
-- yet used is first set up.
pub emit_tagged_refines :
    (name : Option (List ℕ)) (level : ℤ) (message : List ℕ) (log : Log)
    → (log.ready ≡ true → IsLog log)
    → let (log', published) = emit_tagged name level message log in
      let before = ensure_ready log in
      let e = new_entry before.sequence level (sanitize name) message in
      let below = is_below level (threshold (sanitize name) before) in
      IsLog log'
      × (entries log' ≡ (if below then entries before else remember e (entries before)))
      × (log'.sequence ≡ (if below then before.sequence else (before.sequence + 1) % 2 ^ 32))
      × (published ≡ (if below then none else some e))
unfolding emit_tagged entries
emit_tagged_refines name level message log v =
    let b : Log = ensure_ready log in
    let w = ensure_ready-IsLog log v in
    let s : Log = record b { sequence = (b.sequence + 1) % 2 ^ 32 } in
    let t =
      store_entry_refines (new_entry b.sequence level (sanitize name) message) s
        (record { room = w.room; head_in = w.head_in; bounded = w.bounded }) in
    elim (Bool-cases (is_below level (threshold (sanitize name) b))) [
      | inl below ↦ rw below (w, refl, refl, refl)
      | inr over ↦ rw over (
        t.0,
        t.1,
        store_entry-sequence (new_entry b.sequence level (sanitize name) message) s,
        refl,
      )
    ]
