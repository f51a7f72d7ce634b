-- ===== src/Ipc/Channels/Joining.antt =====
-- kernel/ipc.c: who has joined a channel, after `ipc_channel_join` and `ipc_channel_leave`.
use pro_os.Prelude.{
  ℕ, suc, ◌+◌, ◌%◌, ◌≤◌, ◌<◌, ◌≡◌, refl, ap, sym, subst, ◌∙◌, Bool, true, false, ◌⊎◌, inl, inr,
  Option, none, some, List, [], ◌∷◌, ◌++◌, arith, length, take, set, length-set, leb, Bool-cases,
}
use pro_os.Prelude.Arrays.{find_index, first, take-set_end}
use pro_os.Prelude.Int.{ℤ, ◌==ℤ◌, ==ℤ_refl, failure, success}
use pro_os.Ipc.Process.{Process, channel_slots_max}
use pro_os.Ipc.Channels.{
  Channel, channel_subscribers, is_at, is_among, has_channel, add_channel, remove_channel,
  subscribe, complete, join, remove_waiter, remove_subscriber, unsubscribe,
}
use pro_os.Ipc.Channels.Lists.{remove_from_lem}
use pro_os.Ipc.Channels.Ring.{IsValid, waiting}

-- The channels of a process.
abbrev pub channels : Process → List ℤ
channels p = take p.channel_count p.channel_slots

abbrev pub subscribers : Channel → List (Option ℕ)
subscribers c = take c.subscriber_count c.subscribers

pub record HasSlots (p : Process) : Type 0 where
  pub room : length p.channel_slots ≡ channel_slots_max
  pub bounded : p.channel_count ≤ channel_slots_max

is_among-none {ℓ} :
    {A : Type ℓ} (test : A → Bool) (xs : List A) (n : ℕ)
    → is_among test xs n ≡ false
    → find_index test (take n xs) ≡ none
unfolding is_among
is_among-none test xs n e = ground arith

first_last {ℓ} :
    {A : Type ℓ} (test : A → Bool) (xs : List A) (x : A)
    → find_index test xs ≡ none
    → test x ≡ true
    → first test (xs ++ x ∷ []) ≡ (some x, xs)
unfolding find_index first
first_last test [] x e t = rw t refl
first_last test (y ∷ xs) x e t = ground (arith, first_last test xs x)

-- The process with one channel more.
added : ℤ → Process → Process
added id p = record p {
  channel_slots = set p.channel_slots p.channel_count id;
  channel_count = (p.channel_count + 1) % 256;
}

module _ (p : Process) (id : ℤ) (v : HasSlots p) where
  channels-added :
      p.channel_count < channel_slots_max → channels (added id p) ≡ channels p ++ id ∷ []
  unfolding added
  channels-added h =
      let n : (p.channel_count + 1) % 256 ≡ suc p.channel_count = omega (arith, h) in
      rw n (take-set_end p.channel_slots p.channel_count id (omega (arith, h, v.room)))

  added-HasSlots : p.channel_count < channel_slots_max → HasSlots (added id p)
  unfolding added
  added-HasSlots h = record {
    room = length-set p.channel_slots p.channel_count id ∙ v.room;
    bounded = omega (arith, h);
  }

  remove_channel_lem :
      (channels (remove_channel p id) ≡ (first (λ x. x ==ℤ id) (channels p)).1)
      × HasSlots (remove_channel p id)
  unfolding remove_channel
  remove_channel_lem =
      let r =
        remove_from_lem failure (λ x. x ==ℤ id) p.channel_slots p.channel_count
          (omega (arith, v.room, v.bounded)) in
      (r.0, record { room = r.1 ∙ v.room; bounded = omega (arith, r.2, v.bounded) })

-- Taking a new channel out again gives the channels as they were.
add-remove :
    (p : Process) (id : ℤ)
    → HasSlots p
    → p.channel_count < channel_slots_max
    → has_channel p id ≡ false
    → channels (remove_channel (added id p) id) ≡ channels p
unfolding has_channel
add-remove p id v h new =
    (remove_channel_lem (added id p) id (added-HasSlots p id v h)).0
    ∙ ap (λ xs. (first (λ x. x ==ℤ id) xs).1) (channels-added p id v h)
    ∙ ap (λ r. r.1)
        (first_last (λ x. x ==ℤ id) (channels p) id
          (is_among-none (λ x. x ==ℤ id) p.channel_slots p.channel_count new) (==ℤ_refl id))

-- The channel with one subscriber more.
subscribed : ℕ → Channel → Channel
subscribed i c = record c {
  subscribers = set c.subscribers c.subscriber_count (some i);
  subscriber_count = (c.subscriber_count + 1) % 256;
}

subscribed_lem :
    (i : ℕ) (c : Channel)
    → IsValid c
    → c.subscriber_count < channel_subscribers
    → IsValid (subscribed i c) × (subscribers (subscribed i c) ≡ subscribers c ++ some i ∷ [])
unfolding subscribed
subscribed_lem i c v h =
    let n : (c.subscriber_count + 1) % 256 ≡ suc c.subscriber_count = omega arith in
    (
      record {
        room = v.room;
        head_in = v.head_in;
        bounded = v.bounded;
        tail_at = v.tail_at;
        arrays = v.arrays;
        waiter_room = v.waiter_room;
        waiters_bounded = v.waiters_bounded;
        subscriber_room = length-set c.subscribers c.subscriber_count (some i) ∙ v.subscriber_room;
        subscribers_bounded = omega arith;
      },
      rw n (
          take-set_end c.subscribers c.subscriber_count (some i)
            (omega (arith, v.subscriber_room))),
    )

-- How `ipc_channel_join` ends.
pub data Joins (i : ℕ) (p : Process) (id : ℤ) (c : Channel) : ℤ × Process × Channel → Type 0 where
  no_room :
      {p' : Process}
      → (p.channel_count ≡ channel_slots_max) ⊎ (c.subscriber_count ≡ channel_subscribers)
      → channels p' ≡ channels p
      → Joins i p id c (failure, p', c)
  joined_before : has_channel p id ≡ true → Joins i p id c (success, p, c)
  joins :
      {p' : Process} {c' : Channel}
      → channels p' ≡ channels p ++ id ∷ []
      → subscribers c' ≡ subscribers c ++ some i ∷ []
      → Joins i p id c (success, p', c')

add_channel_lem :
    (p : Process) (id : ℤ)
    → HasSlots p
    → ((has_channel p id ≡ true) × (add_channel p id ≡ (success, p)))
      ⊎ ((has_channel p id ≡ false)
          × (p.channel_count ≡ channel_slots_max)
          × (add_channel p id ≡ (failure, p)))
      ⊎ ((has_channel p id ≡ false)
          × (p.channel_count < channel_slots_max)
          × (add_channel p id ≡ (success, added id p)))
unfolding add_channel added
add_channel_lem p id s = elim (Bool-cases (has_channel p id)) [
  | inl old ↦ inl (old, rw old refl)
  | inr new ↦ elim (Bool-cases (leb channel_slots_max p.channel_count)) [
    | inl full ↦ inr (inl (new, ground (arith, s.bounded), rw (new, full) refl))
    | inr space ↦ inr (inr (new, ground arith, rw (new, space) refl))
  ]
]

-- If the process and the channel agree on whether the process has joined, `ipc_channel_join` adds the
-- channel to the process and the process to the channel, both or neither: a call that finds no room in
-- the channel takes the channel out of the process again. The arrays are not overrun.
pub join_lem :
    (i : ℕ) (p : Process) (id : ℤ) (c : Channel)
    → IsValid c
    → HasSlots p
    → has_channel p id ≡ is_among (is_at i) c.subscribers c.subscriber_count
    → let r = join i p id c in IsValid r.2 × HasSlots r.1 × Joins i p id c r
unfolding join complete subscribe subscribed
join_lem i p id c v s agree =
    let Good : ℤ × Process → Type 0 =
      λ q. let r = complete i id c q in IsValid r.2 × HasSlots r.1 × Joins i p id c r in
    elim (add_channel_lem p id s) [
      | inl (old, e) ↦ subst Good (sym e) (rw (sym agree ∙ old) (v, s, joined_before old))
      | inr (inl (new, full, e)) ↦ subst Good (sym e) (v, s, no_room (inl full) refl)
      | inr (inr (new, h, e)) ↦
          let stranger = sym agree ∙ new in
          subst Good (sym e) (elim (Bool-cases (leb channel_subscribers c.subscriber_count)) [
            | inl full ↦
                rw (stranger, full)
                  (
                    v,
                    (remove_channel_lem (added id p) id (added-HasSlots p id s h)).1,
                    no_room (inr (ground (arith, v.subscribers_bounded))) (add-remove p id s h new),
                  )
            | inr place ↦
                let j = subscribed_lem i c v (ground arith) in
                rw (stranger, place)
                  (j.0, added-HasSlots p id s h, joins (channels-added p id s h) j.1)
          ])
    ]

-- After `ipc_channel_leave` on a channel the first entry of the process is gone from the subscribers
-- and from the waiters, the other entries keep their order, and the arrays are not overrun.
pub unsubscribe_lem :
    (i : ℕ) (c : Channel)
    → IsValid c
    → IsValid (unsubscribe c i)
      × (subscribers (unsubscribe c i) ≡ (first (is_at i) (subscribers c)).1)
      × (waiting (unsubscribe c i) ≡ (first (is_at i) (waiting c)).1)
unfolding unsubscribe remove_waiter remove_subscriber
unsubscribe_lem i c v =
    let s =
      remove_from_lem none (is_at i) c.subscribers c.subscriber_count
        (omega (arith, v.subscriber_room, v.subscribers_bounded)) in
    let w =
      remove_from_lem none (is_at i) c.waiters c.waiter_count
        (omega (arith, v.waiter_room, v.waiters_bounded)) in
    (
      record {
        room = v.room;
        head_in = v.head_in;
        bounded = v.bounded;
        tail_at = v.tail_at;
        arrays = v.arrays;
        waiter_room = w.1 ∙ v.waiter_room;
        waiters_bounded = omega (arith, w.2, v.waiters_bounded);
        subscriber_room = s.1 ∙ v.subscriber_room;
        subscribers_bounded = omega (arith, s.2, v.subscribers_bounded);
      },
      s.0,
      w.0,
    )
