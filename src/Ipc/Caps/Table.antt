-- ===== src/Ipc/Caps/Table.antt =====
-- kernel/ipc.c: the table of rights of a process, entry by entry.
use pro_os.Prelude.{
  ℕ, zero, suc, ◌+◌, ◌≤◌, ◌<◌, ◌≡◌, refl, true, false, not, ◌&&◌, ◌⊎◌, inl, inr, Option, none, some,
  List, [], ◌∷◌, arith, length, set, replicate, if◌then◌else◌,
}
use pro_os.Prelude.Arrays.{find_index}
use pro_os.Prelude.Int.{ℤ, ◌==ℤ◌, ==ℤ_iff, ==ℤ_sym}
use pro_os.Ipc.Process.{Cap, Process, caps_per_proc, no_cap}
use pro_os.Ipc.Caps.{find_slot, rights_of}

-- The rights by a walk over the table.
abbrev pub granted : List Cap → ℤ → ℕ
granted [] peer = 0
granted (c ∷ cs) peer = if c.used && (c.peer ==ℤ peer) then c.rights else granted cs peer

pub rights_of-granted : (cs : List Cap) (peer : ℤ) → rights_of cs peer ≡ granted cs peer
unfolding rights_of find_slot find_index
rights_of-granted [] peer = refl
rights_of-granted (c ∷ cs) peer = ground (arith, rights_of-granted cs peer)

-- No entry for the peer.
abbrev pub Absent : ℤ → List Cap → Type 0
Absent peer [] = Unit {0}
Absent peer (c ∷ cs) = ((c.used && (c.peer ==ℤ peer)) ≡ false) × Absent peer cs

-- At most one entry for each peer.
abbrev pub Unique : List Cap → Type 0
Unique [] = Unit {0}
Unique (c ∷ cs) = ((c.used ≡ false) ⊎ Absent c.peer cs) × Unique cs

abbrev pub count_used : List Cap → ℕ
count_used [] = 0
count_used (c ∷ cs) = (if c.used then 1 else 0) + count_used cs

granted-Absent : (cs : List Cap) (peer : ℤ) → Absent peer cs → granted cs peer ≡ 0
granted-Absent [] peer a = refl
granted-Absent (c ∷ cs) peer a = ground (arith, granted-Absent cs peer a.1)

pub count_used-le : (cs : List Cap) → count_used cs ≤ length cs
count_used-le [] = omega arith
count_used-le (c ∷ cs) = ground (arith, count_used-le cs)

-- A table with room, one entry for a peer, and the right count.
pub record IsValid (p : Process) : Type 0 where
  pub room : length p.caps ≡ caps_per_proc
  pub unique : Unique p.caps
  pub counted : p.cap_count ≡ count_used p.caps

-- `find_slot` by a walk.
find_slot-cons :
    (c : Cap) (cs : List Cap) (peer : ℤ)
    → find_slot (c ∷ cs) peer ≡ (
        if c.used && (c.peer ==ℤ peer)
        then some 0
        else elim (find_slot cs peer) [ none ↦ none | some i ↦ some (suc i) ])
unfolding find_slot find_index
find_slot-cons c cs peer = ground arith

find_slot-nil : (peer : ℤ) → find_slot [] peer ≡ none
unfolding find_slot find_index
find_slot-nil peer = refl

-- Replacing the entry of a peer changes the rights towards that peer only.
pub granted-replace :
    (cs : List Cap) (peer other : ℤ) (i r : ℕ)
    → find_slot cs peer ≡ some i
    → granted (set cs i (record { used = true; peer = peer; rights = r })) other
      ≡ (if other ==ℤ peer then r else granted cs other)
granted-replace [] peer other i r e = ground (arith, find_slot-nil peer)
granted-replace (c ∷ cs) peer other zero r e =
    ground (arith, find_slot-cons c cs peer, ==ℤ_iff c.peer peer, ==ℤ_sym other peer)
granted-replace (c ∷ cs) peer other (suc i) r e =
    ground (arith, find_slot-cons c cs peer, granted-replace cs peer other i r, ==ℤ_iff other peer)

Absent-set :
    (cs : List Cap) (peer : ℤ) (i : ℕ) (v : Cap)
    → Absent peer cs
    → (v.used && (v.peer ==ℤ peer)) ≡ false
    → Absent peer (set cs i v)
Absent-set [] peer i v a h = tt
Absent-set (c ∷ cs) peer zero v a h = (h, a.1)
Absent-set (c ∷ cs) peer (suc i) v a h = (a.0, Absent-set cs peer i v a.1 h)

pub Absent-find_slot : (cs : List Cap) (peer : ℤ) → find_slot cs peer ≡ none → Absent peer cs
Absent-find_slot [] peer e = tt
Absent-find_slot (c ∷ cs) peer e =
    ground (arith, find_slot-cons c cs peer, Absent-find_slot cs peer)

pub Unique-replace :
    (cs : List Cap) (peer : ℤ) (i r : ℕ)
    → find_slot cs peer ≡ some i
    → Unique cs
    → Unique (set cs i (record { used = true; peer = peer; rights = r }))
Unique-replace [] peer i r e u = tt
Unique-replace (c ∷ cs) peer zero r e u =
    ground (arith, find_slot-cons c cs peer, ==ℤ_iff c.peer peer)
Unique-replace (c ∷ cs) peer (suc i) r e u = ground (
  arith,
  find_slot-cons c cs peer,
  Unique-replace cs peer i r,
  Absent-set cs c.peer i (record { used = true; peer = peer; rights = r }),
  ==ℤ_sym c.peer peer,
)

-- A free entry, and what a new entry there means.
abbrev pub free_slot : List Cap → Option ℕ
free_slot = find_index (λ (c : Cap). not c.used)

free_slot-cons :
    (c : Cap) (cs : List Cap)
    → free_slot (c ∷ cs)
      ≡ (if not c.used then some 0 else elim (free_slot cs) [ none ↦ none | some i ↦ some (suc i) ])
unfolding find_index
free_slot-cons c cs = ground arith

free_slot-nil : free_slot [] ≡ none
unfolding find_index
free_slot-nil = refl

module _ (peer : ℤ) (r : ℕ) where
  abbrev pub entry : Cap
  entry = record { used = true; peer = peer; rights = r }

  pub granted-new :
      (cs : List Cap) (other : ℤ) (i : ℕ)
      → free_slot cs ≡ some i
      → Absent peer cs
      → granted (set cs i entry) other ≡ (if other ==ℤ peer then r else granted cs other)
  granted-new [] other i e a = ground (arith, free_slot-nil)
  granted-new (c ∷ cs) other zero e a = ground (arith, free_slot-cons c cs, ==ℤ_sym other peer)
  granted-new (c ∷ cs) other (suc i) e a =
      ground (arith, free_slot-cons c cs, granted-new cs other i, ==ℤ_iff other peer)

  pub Unique-new :
      (cs : List Cap) (i : ℕ)
      → free_slot cs ≡ some i
      → Absent peer cs
      → Unique cs
      → Unique (set cs i entry)
  Unique-new [] i e a u = tt
  Unique-new (c ∷ cs) zero e a u = (inr a.1, u.1)
  Unique-new (c ∷ cs) (suc i) e a u = ground (
    arith,
    free_slot-cons c cs,
    Unique-new cs i,
    Absent-set cs c.peer i entry,
    ==ℤ_sym c.peer peer,
  )

  pub count_used-new :
      (cs : List Cap) (i : ℕ)
      → free_slot cs ≡ some i
      → (count_used (set cs i entry) ≡ count_used cs + 1) × (count_used cs < length cs)
  count_used-new [] i e = ground (arith, free_slot-nil)
  count_used-new (c ∷ cs) zero e = ground (arith, free_slot-cons c cs, count_used-le cs)
  count_used-new (c ∷ cs) (suc i) e = ground (arith, free_slot-cons c cs, count_used-new cs i)

  pub count_used-replace :
      (cs : List Cap) (i : ℕ)
      → find_slot cs peer ≡ some i
      → (count_used (set cs i entry) ≡ count_used cs)
  count_used-replace [] i e = refl
  count_used-replace (c ∷ cs) zero e = ground (arith, find_slot-cons c cs peer)
  count_used-replace (c ∷ cs) (suc i) e =
      ground (arith, find_slot-cons c cs peer, count_used-replace cs i)

module _ (peer : ℤ) where
  pub granted-remove :
      (cs : List Cap) (other : ℤ) (i : ℕ)
      → find_slot cs peer ≡ some i
      → Unique cs
      → granted (set cs i no_cap) other ≡ (if other ==ℤ peer then 0 else granted cs other)
  granted-remove [] other i e u = ground (arith, find_slot-nil peer)
  granted-remove (c ∷ cs) other zero e u = ground (
    arith,
    find_slot-cons c cs peer,
    ==ℤ_iff c.peer peer,
    ==ℤ_sym other peer,
    ==ℤ_iff other peer,
    granted-Absent cs peer,
  )
  granted-remove (c ∷ cs) other (suc i) e u =
      ground (arith, find_slot-cons c cs peer, granted-remove cs other i, ==ℤ_iff other peer)

  pub Unique-remove : (cs : List Cap) (i : ℕ) → Unique cs → Unique (set cs i no_cap)
  Unique-remove [] i u = tt
  Unique-remove (c ∷ cs) zero u = (inl refl, u.1)
  Unique-remove (c ∷ cs) (suc i) u =
      ground (arith, Unique-remove cs i u.1, Absent-set cs c.peer i no_cap)

  pub count_used-remove :
      (cs : List Cap) (i : ℕ)
      → find_slot cs peer ≡ some i
      → count_used (set cs i no_cap) + 1 ≡ count_used cs
  count_used-remove [] i e = ground (arith, find_slot-nil peer)
  count_used-remove (c ∷ cs) zero e = ground (arith, find_slot-cons c cs peer)
  count_used-remove (c ∷ cs) (suc i) e =
      ground (arith, find_slot-cons c cs peer, count_used-remove cs i)

pub Unique-blank : (n : ℕ) → Unique (replicate n no_cap)
Unique-blank zero = tt
Unique-blank (suc n) = (inl refl, Unique-blank n)

pub Absent-blank : (n : ℕ) (peer : ℤ) → Absent peer (replicate n no_cap)
Absent-blank zero peer = tt
Absent-blank (suc n) peer = (refl, Absent-blank n peer)
