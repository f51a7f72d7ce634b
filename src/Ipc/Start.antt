-- ===== src/Ipc/Start.antt =====
-- kernel/ipc.c: `ipc_system_init`, the tables that it sets up and the channels of the kernel's services.
mod Tests
use pro_os.Prelude.{
  ℕ, zero, suc, ◌+◌, ◌-◌, ◌<◌, ◌≤◌, ◌≡◌, ◌≢◌, refl, ap, Bool, true, false, ◌&&◌, ◌||◌, ◌∙◌,
  Bool-cases, inl, inr, Option, none, some, List, [], ◌∷◌, ◌++◌, map, arith, ltb, leb,
  if◌then◌else◌, length, get_or, set, replicate,
}
use pro_os.Prelude.Arrays.{All, find_index}
use pro_os.Prelude.Int.{ℤ, pos, negsuc, failure, is_negative, is_positive, ◌==ℤ◌}
use pro_os.Ipc.Process.{Process, no_process, lookup}
use pro_os.Ipc.Shares.{Region, no_region, max_regions}
use pro_os.Ipc.Channels.{
  MessageSlot, Channel, Channels, channel_waiters, channel_subscribers, channel_flag_kernel,
  no_channel, find_channel, has_channel, is_kernel_channel,
}
use pro_os.Ipc.Channels.Calls.{opened, channel_create, sender_allowed}

-- `share_table`, `service_channel_ids`, `channel_table` with `next_channel_id`, and `ipc_initialized`
pub record Ipc : Type 0 where
  pub regions : List Region
  pub services : List ℤ
  pub channels : Channels
  pub initialized : Bool

-- What the loops leave of a message and of a channel; the bytes of a message stay.
unfoldable pub reset_message : MessageSlot → MessageSlot
reset_message m = record m { header = 0; msg_type = 0; size = 0; flags = 0; sender_pid = failure }

unfoldable pub reset_channel : Channel → Channel
reset_channel c = record {
  used = false;
  id = pos 0;
  flags = 0;
  name = set c.name 0 0;
  queue = map reset_message c.queue;
  head = 0;
  tail = 0;
  count = 0;
  waiters = replicate channel_waiters none;
  waiter_count = 0;
  subscribers = replicate channel_subscribers none;
  subscriber_count = 0;
}

-- `service_names`: "svc.devmgr", "svc.module", "svc.logger" and "svc.scheduler"
abbrev pub service : List ℕ → List ℕ
service name = b's' ∷ b'v' ∷ b'c' ∷ b'.' ∷ name

abbrev pub service_names : List (List ℕ)
service_names =
    service (b'd' ∷ b'e' ∷ b'v' ∷ b'm' ∷ b'g' ∷ b'r' ∷ [])
    ∷ service (b'm' ∷ b'o' ∷ b'd' ∷ b'u' ∷ b'l' ∷ b'e' ∷ [])
    ∷ service (b'l' ∷ b'o' ∷ b'g' ∷ b'g' ∷ b'e' ∷ b'r' ∷ [])
    ∷ service (b's' ∷ b'c' ∷ b'h' ∷ b'e' ∷ b'd' ∷ b'u' ∷ b'l' ∷ b'e' ∷ b'r' ∷ [])
    ∷ []

-- The loop over the services: their ids, or -1, and the channels.
unfoldable pub create_services : List (List ℕ) → Channels → List ℤ × Channels
create_services [] s = ([], s)
create_services (name ∷ names) s =
    let (id, s') = channel_create (some name) 0 channel_flag_kernel s in
    let (ids, s'') = create_services names s' in
    ((if is_negative id then failure else id) ∷ ids, s'')

-- `ipc_system_init`
unfoldable pub system_init : Ipc → Ipc
system_init s =
    let (ids, channels) =
      create_services service_names
        (record { table = map reset_channel s.channels.table; next_id = 1 }) in
    record {
      regions = replicate max_regions no_region;
      services = ids;
      channels = channels;
      initialized = true;
    }

-- `ipc_get_service_channel`; the service is the number of its name in the enumeration.
unfoldable pub get_service_channel : ℤ → Ipc → ℤ
get_service_channel (pos n) s = get_or s.services n failure
get_service_channel (negsuc n) s = failure

unused_after :
    (cs : List Channel) (id : ℤ)
    → find_index (λ c. c.used && (c.id ==ℤ id)) (map reset_channel cs) ≡ none
unfolding find_index reset_channel
unused_after [] id = refl
unused_after (c ∷ cs) id = rw (unused_after cs id) refl

-- A channel of a service: found under its id, and open to every process.
abbrev Serves : Channels → ℕ → Type 0
Serves s n =
    (find_channel (pos (suc n)) s.table ≡ some n)
    × (is_kernel_channel (get_or s.table n no_channel) ≡ true)

created :
    (cs : List Channel)
    → 4 ≤ length cs
    → let (ids, s) =
        create_services service_names (record { table = map reset_channel cs; next_id = 1 }) in
      (ids ≡ pos 1 ∷ pos 2 ∷ pos 3 ∷ pos 4 ∷ [])
      × (s.next_id ≡ 5)
      × Serves s 0
      × Serves s 1
      × Serves s 2
      × Serves s 3
      × ((id : ℕ) → 4 < id → find_channel (pos id) s.table ≡ none)
unfolding create_services channel_create opened reset_channel find_channel find_index
    is_kernel_channel
created [] h = absurd (omega arith)
created (a ∷ []) h = absurd (omega arith)
created (a ∷ b ∷ []) h = absurd (omega arith)
created (a ∷ b ∷ c ∷ []) h = absurd (omega arith)
created (a ∷ b ∷ c ∷ d ∷ cs) h = (
  refl,
  refl,
  (refl, refl),
  (refl, refl),
  (refl, refl),
  (refl, refl),
  λ id l. ground (arith, unused_after cs (pos id)),
)

service_cases : (P : ℕ → Type 0) (n : ℕ) → n < 4 → P 0 × P 1 × P 2 × P 3 → P n
service_cases P zero h p = p.0
service_cases P (suc zero) h p = p.1
service_cases P (suc (suc zero)) h p = p.2
service_cases P (suc (suc (suc zero))) h p = p.3
service_cases P (suc (suc (suc (suc n)))) h p = absurd (omega arith)

-- The kernel's channels take messages from every process that lives.
open_to_all :
    (sender id : ℤ) (c : Channel) (i : ℕ) (procs : List Process)
    → is_kernel_channel c ≡ true
    → lookup sender procs ≡ some i
    → sender_allowed sender id c procs ≡ true
unfolding sender_allowed
open_to_all sender id c i procs k alive = elim (Bool-cases (is_positive sender)) [
  | inl y ↦ rw (y, alive, k) (or_true (has_channel (get_or procs i no_process) id))
  | inr n ↦ rw n refl
]
  where
    or_true : (b : Bool) → (b || true) ≡ true
    or_true true = refl
    or_true false = refl

-- `ipc_system_init`, with a table of at least four channels and whatever was in it, gives the four services
-- the ids 1 to 4. Under each of them a channel is found, to which every living process may send without
-- joining it; no later id leads to a channel.
pub system_init_lem :
    (s : Ipc)
    → 4 ≤ length s.channels.table
    → let s' = system_init s in
      ((n : ℕ)
        → n < 4
        → (get_service_channel (pos n) s' ≡ pos (suc n))
          × (find_channel (pos (suc n)) s'.channels.table ≡ some n)
          × ((sender : ℤ) (i : ℕ) (procs : List Process)
              → lookup sender procs ≡ some i
              → sender_allowed sender (pos (suc n)) (get_or s'.channels.table n no_channel) procs
                ≡ true))
      × ((id : ℕ) → 4 < id → find_channel (pos id) s'.channels.table ≡ none)
unfolding system_init get_service_channel
system_init_lem s h =
    let r = created s.channels.table h in
    let channels : Channels =
      (create_services service_names
        (record { table = map reset_channel s.channels.table; next_id = 1 })).1 in
    (
      λ n k.
          let c = service_cases (Serves channels) n k (r.2, r.3, r.4, r.5) in
          (
            ap (λ xs. get_or xs n failure) r.0
                ∙ service_cases
                    (λ m. get_or (pos 1 ∷ pos 2 ∷ pos 3 ∷ pos 4 ∷ []) m failure ≡ pos (suc m)) n k
                    (refl, refl, refl, refl),
            c.0,
            λ sender i procs alive.
                open_to_all sender (pos (suc n)) (get_or channels.table n no_channel) i procs c.1
                  alive,
          ),
      r.6,
    )
