-- ===== src/Klog/Publish.antt =====
-- kernel/klog.c over kernel/ipc.c: an entry of the log is sent to the log service, or else to the channel of
-- the loggers.
pub mod Reach
mod Tests
use mathlib.Core.List.{append_assoc, append-nil}
use pro_os.Prelude.{
  suc, zero, ◌*◌, ◌<◌, ◌≡◌, refl, ap, sym, ◌∙◌, arith, ◌==◌, get_or, length-append, length-drop, ℕ,
  ◌+◌, ◌/◌, ◌%◌, ◌^◌, not, ◌&&◌, Option, none, some, List, [], ◌∷◌, ◌++◌, if◌then◌else◌, length,
  drop,
}
use pro_os.Prelude.Int.{ℤ, pos, is_negative, is_positive}
use pro_os.Ramfs.Text.{IsText}
use pro_os.Klog.{Entry, module_name_len, entry_len}
use pro_os.Ipc.Process.{Process}
use pro_os.Ipc.Messages
use pro_os.Ipc.Channels.Calls.{channel_send}
use pro_os.Ipc.Start.{Ipc, get_service_channel}

-- A word of 32 bits, its low byte first
unfoldable pub word_bytes : ℕ → List ℕ
word_bytes n = n % 256 ∷ (n / 2 ^ 8) % 256 ∷ (n / 2 ^ 16) % 256 ∷ (n / 2 ^ 24) % 256 ∷ []

-- A text and its terminator at the front of an array, which keeps what stands behind them.
unfoldable pub into_array : List ℕ → List ℕ → List ℕ
into_array text array = text ++ 0 ∷ drop (length text + 1) array

-- `struct klog_ipc_event`, as it is filled: the two arrays are local variables, and what was in them stays.
unfoldable pub payload : List ℕ → List ℕ → Entry → List ℕ
payload tag_array text_array e =
    word_bytes e.seq
    ++ e.level % 256 ∷ 0 ∷ 0 ∷ 0 ∷ into_array e.tag tag_array
    ++ into_array e.text text_array

-- The size of the structure
abbrev pub payload_size : ℕ
payload_size = 128

-- IPC_SERVICE_LOGGER
abbrev pub service_logger : ℤ
service_logger = pos 2

-- The processes, the tables of kernel/ipc.c, and `logger_channel_id`
pub record Listeners : Type 0 where
  pub procs : List Process
  pub ipc : Ipc
  pub logger_channel : ℤ

-- The end of `klog_publish_channel`: the channel's id is asked for once.
unfoldable pub publish_on_channel : ℕ → List ℕ → Listeners → Option ℕ × Listeners
publish_on_channel level bytes l =
    let id : ℤ =
      if is_negative l.logger_channel
      then get_service_channel service_logger l.ipc
      else l.logger_channel in
    let (code, wake, procs, channels) =
      channel_send id (pos 0) 0 level (some bytes) payload_size 0 l.procs l.ipc.channels in
    if is_negative id then (none, record l { logger_channel = id }) else (
      wake,
      record { procs = procs; ipc = record l.ipc { channels = channels }; logger_channel = id },
    )

-- `klog_publish_channel`: the process to wake, and the new state. `logd` is the pid that the registry of the
-- services names, `current` the process that logs, and the arrays are what stood in the local
-- variables. The texts of an entry fit their arrays.
unfoldable pub publish : ℤ → Option ℕ → List ℕ → List ℕ → Entry → Listeners → Option ℕ × Listeners
publish logd current tag_array text_array e l =
    let bytes : List ℕ = payload tag_array text_array e in
    let (code, wake, procs) =
      Messages.send l.ipc.initialized logd (some bytes) payload_size current l.procs in
    if not l.ipc.initialized
    then (none, l)
    else if is_positive logd && not (is_negative code)
    then (wake, record l { procs = procs })
    else publish_on_channel e.level bytes l

-- What a reader takes for a text: the bytes in front of the first terminator.
unfoldable pub text_of : List ℕ → List ℕ
text_of [] = []
text_of (c ∷ s) = if c == 0 then [] else c ∷ text_of s

drop-append : (a b : List ℕ) (n : ℕ) → length a ≡ n → drop n (a ++ b) ≡ b
drop-append [] b zero e = refl
drop-append [] b (suc n) e = absurd (omega (arith, e))
drop-append (x ∷ a) b zero e = absurd (omega (arith, e))
drop-append (x ∷ a) b (suc n) e = drop-append a b n (omega (arith, e))

text_of-append : (t s : List ℕ) → IsText t → text_of (t ++ 0 ∷ s) ≡ t
unfolding text_of
text_of-append [] s h = refl
text_of-append (c ∷ t) s h = ground (arith, text_of-append t s h.1, h.0)

length-into_array :
    (t array : List ℕ) → length t < length array → length (into_array t array) ≡ length array
unfolding into_array
length-into_array t array h =
    omega (arith, length-append t (0 ∷ drop (length t + 1) array), length-drop (length t + 1) array)

text_of-into_array : (t array s : List ℕ) → IsText t → text_of (into_array t array ++ s) ≡ t
unfolding into_array
text_of-into_array t array s h =
    ap text_of (append_assoc t (0 ∷ drop (length t + 1) array) s)
    ∙ text_of-append t (drop (length t + 1) array ++ s) h

-- The number that four bytes stand for, the low one first
unfoldable pub word_of : List ℕ → ℕ
word_of (a ∷ b ∷ c ∷ d ∷ s) = a + b * 2 ^ 8 + c * 2 ^ 16 + d * 2 ^ 24
word_of s = 0

pub length-payload :
    (tag_array text_array : List ℕ) (e : Entry)
    → length tag_array ≡ module_name_len
    → length text_array ≡ entry_len
    → length e.tag < module_name_len
    → length e.text < entry_len
    → length (payload tag_array text_array e) ≡ payload_size
unfolding payload word_bytes
length-payload tag_array text_array e ha hb lt lx = omega (
  arith,
  length-into_array e.tag tag_array (omega (arith, ha, lt)) ∙ ha,
  length-into_array e.text text_array (omega (arith, hb, lx)) ∙ hb,
  length-append (into_array e.tag tag_array) (into_array e.text text_array),
)

-- The message of an entry of the log has the size of the structure, and whatever was in its arrays a reader
-- finds the entry's number, level, module and text in it at their places.
pub payload_lem :
    (tag_array text_array : List ℕ) (e : Entry)
    → length tag_array ≡ module_name_len
    → length text_array ≡ entry_len
    → e.seq < 2 ^ 32
    → e.level < 256
    → IsText e.tag × (length e.tag < module_name_len)
    → IsText e.text × (length e.text < entry_len)
    → let bytes = payload tag_array text_array e in
      (length bytes ≡ payload_size)
      × (word_of bytes ≡ e.seq)
      × (get_or bytes 4 0 ≡ e.level)
      × (text_of (drop 8 bytes) ≡ e.tag)
      × (text_of (drop 32 bytes) ≡ e.text)
unfolding payload word_bytes word_of
payload_lem tag_array text_array e ha hb hs hl (tt1, lt) (tx, lx) =
    let a : List ℕ = into_array e.tag tag_array in
    let b : List ℕ = into_array e.text text_array in
    let la : length a ≡ 24 = length-into_array e.tag tag_array (omega (arith, ha, lt)) ∙ ha in
    (
      length-payload tag_array text_array e ha hb lt lx,
      omega (arith, hs),
      omega (arith, hl),
      text_of-into_array e.tag tag_array b tt1,
      ap text_of (drop-append a b 24 la ∙ sym (append-nil b))
          ∙ text_of-into_array e.text text_array [] tx,
    )
