-- ===== src/Inet/Tests.antt =====
-- Runs of the protocols of kernel/ethernet.c, arp.c, ipv4.c and icmp.c, and their theorems at concrete
-- packets and systems.
use pro_os.Prelude.{
  ℕ, ◌-◌, ◌/◌, ◌%◌, ◌^◌, ◌<◌, ◌≤◌, ◌≡◌, ◌↔◌, refl, none, some, List, [], ◌∷◌, ◌++◌, arith, length,
  get_or, take, replicate,
}
use pro_os.Prelude.Arrays.{find_index, All-get_or, All-replicate}
use pro_os.Prelude.Int.{pos, success}
use pro_os.Inet.{
  read_be16, Device, Entry, Net, checksum, fold_carries, fold_once, write_be16, sum_words,
}
use pro_os.Inet.Arp.{
  is_entry_of, no_entry, cache_capacity, cache_store, cache_lookup, resolve, source_of,
}
use pro_os.Inet.Icmp.{no_reply}
use pro_os.Inet.Icmp.Replies.{IsTable}
use pro_os.Inet.Ipv4.{header, sealed_header}
use pro_os.Inet.Input.{process_frame, receive, header_len, total_length}
use pro_os.Inet.Input.Bounds.{receive-take}
use pro_os.Inet.Checksum.{ones_sum, checksum-ones_sum, fold_carries_rounds}
use pro_os.Inet.Seals.{sealed_header_lem}
use pro_os.Inet.Arp.Cache.{Written, Renewed, cache_store_lem}
use pro_os.Inet.Exchange.{IsWorking, IsCache, exchange_lem}

abbrev words : List ℕ
words = 255 ∷ 255 ∷ 0 ∷ 1 ∷ 128 ∷ []

checksum-words : checksum words ≡ 32766
unfolding checksum sum_words fold_carries
checksum-words = refl

abbrev net : List ℕ → Net
net address = record {
  cache = replicate cache_capacity no_entry;
  replies = replicate 8 no_reply;
  reply_count = 0;
  ident = 0;
  address = address;
  sent = [];
}

abbrev device : ℕ → Device
device id = record {
  id = id;
  mac = 2 ∷ 0 ∷ 0 ∷ 0 ∷ 0 ∷ id ∷ [];
  transmit = some (λ f. pos (length f));
}

device-IsWorking : (id : ℕ) → IsWorking (device id)
device-IsWorking id = record {
  driver = λ f. pos (length f);
  has_driver = refl;
  takes = λ f. refl;
  address = refl;
}

empty_times : (j : ℕ) → (get_or (replicate cache_capacity no_entry) j no_entry).updated < 2 ^ 64 - 1
empty_times j =
    All-get_or (λ (e : Entry). e.updated < 2 ^ 64 - 1) (replicate cache_capacity no_entry) j
      no_entry
      (All-replicate (λ (e : Entry). e.updated < 2 ^ 64 - 1) cache_capacity no_entry (omega arith))
      (omega arith)

empty-IsCache : IsCache (replicate cache_capacity no_entry)
empty-IsCache = record { room = refl; timely = empty_times }

empty-IsTable : IsTable (net [])
empty-IsTable = record { room = refl; bounded = omega arith }

nothing_known : cache_lookup 1 (10 ∷ 0 ∷ 0 ∷ 2 ∷ []) (replicate cache_capacity no_entry) ≡ none
unfolding cache_lookup find_index is_entry_of
nothing_known = refl

fold_carries_rounds_example :
    (fold_carries 131070 ≡ fold_once (fold_once 131070)) × (fold_carries 131070 < 2 ^ 16)
fold_carries_rounds_example = fold_carries_rounds 131070 (omega arith)

checksum-ones_sum_example : checksum words ≡ 2 ^ 16 - 1 - ones_sum words 0
checksum-ones_sum_example = checksum-ones_sum words (omega arith) (omega arith)

sealed_header_lem_example :
    let sum = checksum (header 28 1 1 (0 ∷ 0 ∷ []) (10 ∷ 0 ∷ 0 ∷ 1 ∷ []) (10 ∷ 0 ∷ 0 ∷ 2 ∷ [])) in
    (checksum (header 28 1 1 (write_be16 sum) (10 ∷ 0 ∷ 0 ∷ 1 ∷ []) (10 ∷ 0 ∷ 0 ∷ 2 ∷ [])) ≡ 0)
    × ((checksum (sealed_header 28 1 1 (10 ∷ 0 ∷ 0 ∷ 1 ∷ []) (10 ∷ 0 ∷ 0 ∷ 2 ∷ [])) ≡ 0)
        ↔ (sum / 256 ≡ sum % 256))
sealed_header_lem_example =
    sealed_header_lem 28 1 1 (10 ∷ 0 ∷ 0 ∷ 1 ∷ []) (10 ∷ 0 ∷ 0 ∷ 2 ∷ []) (omega arith)
      (omega arith, omega arith, refl, refl)

cache_store_lem_example :
    (i : ℕ) × Written 1 (10 ∷ 0 ∷ 0 ∷ 2 ∷ []) (replicate cache_capacity no_entry) i
    × Renewed 7 1
        (10 ∷ 0 ∷ 0 ∷ 2 ∷ [])
        (2 ∷ 0 ∷ 0 ∷ 0 ∷ 0 ∷ 2 ∷ [])
        (replicate cache_capacity no_entry)
        (cache_store 7 1
          (10 ∷ 0 ∷ 0 ∷ 2 ∷ [])
          (2 ∷ 0 ∷ 0 ∷ 0 ∷ 0 ∷ 2 ∷ [])
          (replicate cache_capacity no_entry))
        i
cache_store_lem_example =
    cache_store_lem 7 1 (10 ∷ 0 ∷ 0 ∷ 2 ∷ []) (2 ∷ 0 ∷ 0 ∷ 0 ∷ 0 ∷ 2 ∷ [])
      (replicate cache_capacity no_entry) refl empty_times

-- An echo reply of 28 bytes, and 3 bytes behind it
abbrev echoed : List ℕ
echoed =
    69 ∷ 0 ∷ 0 ∷ 28 ∷ 0 ∷ 0 ∷ 0 ∷ 0 ∷ 64 ∷ 1 ∷ 0 ∷ 0 ∷ 10 ∷ 0 ∷ 0 ∷ 2 ∷ 10 ∷ 0 ∷ 0 ∷ 1 ∷ 0 ∷ 0 ∷ 0
    ∷ 0 ∷ 0 ∷ 7 ∷ 0 ∷ 1 ∷ 9 ∷ 9 ∷ 9 ∷ []

echoed_length : header_len echoed ≤ total_length echoed
unfolding read_be16
echoed_length = omega arith

receive-take_example :
    receive (device 1) (take 28 echoed) 28 (net (10 ∷ 0 ∷ 0 ∷ 1 ∷ []))
    ≡ receive (device 1) echoed 28 (net (10 ∷ 0 ∷ 0 ∷ 1 ∷ []))
receive-take_example = receive-take (device 1) echoed 28 (net (10 ∷ 0 ∷ 0 ∷ 1 ∷ [])) echoed_length

exchange_lem_example :
    let (code, _, asking) = resolve (device 1) (10 ∷ 0 ∷ 0 ∷ 2 ∷ []) (net (10 ∷ 0 ∷ 0 ∷ 1 ∷ [])) in
    (question response : List ℕ) × (code ≡ pos 1)
    × (asking.sent ≡ [] ++ (1, question) ∷ [])
    × (let (c, answering) =
          process_frame 8 (device 2) question (length question) (net (10 ∷ 0 ∷ 0 ∷ 9 ∷ [])) in
        (c ≡ success)
        × (answering.sent ≡ [] ++ (2, response) ∷ [])
        × (cache_lookup 2 (source_of (net (10 ∷ 0 ∷ 0 ∷ 1 ∷ []))) answering.cache
            ≡ some (2 ∷ 0 ∷ 0 ∷ 0 ∷ 0 ∷ 1 ∷ [])))
    × (let (c, knowing) = process_frame 9 (device 1) response (length response) asking in
        (c ≡ success)
        × (resolve (device 1) (10 ∷ 0 ∷ 0 ∷ 2 ∷ []) knowing
            ≡ (success, 2 ∷ 0 ∷ 0 ∷ 0 ∷ 0 ∷ 2 ∷ [], knowing)))
exchange_lem_example =
    exchange_lem (device 1) (device 2) (device-IsWorking 1) (device-IsWorking 2)
      (10 ∷ 0 ∷ 0 ∷ 2 ∷ []) (net (10 ∷ 0 ∷ 0 ∷ 1 ∷ [])) (net (10 ∷ 0 ∷ 0 ∷ 9 ∷ [])) refl refl
      empty-IsCache empty-IsCache nothing_known 8 9
