-- ===== src/Klog.antt =====
-- kernel/klog.c: the kernel's log, a ring of the last entries with a level for each module. A text is the
-- list of its bytes, without the terminator. The interrupt flag is held during each step on the ring
-- and the table, which are single steps here.
pub mod Names
pub mod Lines
pub mod Ring
pub mod Table
pub mod Publish
mod Tests
use mathlib.Core.Option
use pro_os.Prelude.{
  ℕ, zero, suc, ◌+◌, ◌-◌, ◌%◌, ◌^◌, min, Bool, true, false, not, ◌&&◌, Option, none, some, List, [],
  ◌∷◌, ltb, ◌==◌, if◌then◌else◌, get_or, set, take, replicate,
}
use pro_os.Prelude.Arrays.{find_index}
use pro_os.Prelude.Int.{ℤ, pos, negsuc, failure, success, ◌==ℤ◌}

-- CONFIG_KLOG_CAPACITY, CONFIG_KLOG_ENTRY_LEN, CONFIG_KLOG_DEFAULT_LEVEL,
-- CONFIG_KLOG_MODULE_NAME_LEN and CONFIG_KLOG_MAX_MODULES
abbrev pub capacity : ℕ
capacity = 128

abbrev pub entry_len : ℕ
entry_len = 96

abbrev pub default_level : ℕ
default_level = 1

abbrev pub module_name_len : ℕ
module_name_len = 24

abbrev pub max_modules : ℕ
max_modules = 32

-- KLOG_INFO, KLOG_ERROR (KLOG_DEBUG is 0) and KLOG_LEVEL_INHERIT
abbrev pub info : ℕ
info = 1

abbrev pub error : ℕ
error = 3

abbrev pub inherit : ℤ
inherit = negsuc 0

-- `struct klog_entry`: the array `tag` is the field `module`.
pub record Entry : Type 0 where
  pub seq : ℕ
  pub level : ℕ
  pub tag : List ℕ
  pub text : List ℕ

-- `struct klog_module_entry`
pub record Module : Type 0 where
  pub used : Bool
  pub level : ℤ
  pub name : List ℕ

-- The static variables of the log. The ring is shut in proofs: it is long.
pub record Log : Type 0 where
  pub buffer : List Entry
  pub count : ℕ
  pub head : ℕ
  pub sequence : ℕ
  pub level : ℕ
  pub ready : Bool
  pub modules : List Module

abbrev pub no_entry : Entry
no_entry = record { seq = 0; level = info; tag = []; text = [] }

abbrev pub no_module : Module
no_module = record { used = false; level = inherit; name = [] }

-- `string_copy` into an array of `cap` bytes, `cap` not 0.
abbrev pub string_copy : ℕ → List ℕ → List ℕ
string_copy cap src = take (cap - 1) src

-- `string_equals`
unfoldable pub string_equals : List ℕ → List ℕ → Bool
string_equals [] [] = true
string_equals [] (b ∷ y) = false
string_equals (a ∷ x) [] = false
string_equals (a ∷ x) (b ∷ y) = (a == b) && string_equals x y

-- A level, put into the range from KLOG_DEBUG to KLOG_ERROR.
unfoldable pub clamp : ℤ → ℕ
clamp (pos n) = min n error
clamp (negsuc n) = 0

-- `klog_init`
unfoldable pub init : Log → Log
init log = record {
  buffer = replicate capacity no_entry;
  count = 0;
  head = 0;
  sequence = 0;
  level = default_level;
  ready = true;
  modules = replicate max_modules no_module;
}

-- `ensure_ready`
unfoldable pub ensure_ready : Log → Log
ensure_ready log = if log.ready then log else init log

-- The text "kernel".
abbrev pub kernel_tag : List ℕ
kernel_tag = 107 ∷ 101 ∷ 114 ∷ 110 ∷ 101 ∷ 108 ∷ []

-- `sanitize_module`: an empty name, or none, is the kernel's.
unfoldable pub sanitize : Option (List ℕ) → List ℕ
sanitize none = kernel_tag
sanitize (some []) = kernel_tag
sanitize (some (c ∷ name)) = c ∷ name

abbrev pub is_module : List ℕ → Module → Bool
is_module tag m = m.used && string_equals m.name tag

-- `find_module_entry`, without `allocate`
unfoldable pub find_module : List ℕ → List Module → Option ℕ
find_module tag modules = find_index (is_module tag) modules

-- A free entry is taken for the module, if there is one.
unfoldable pub take_free : List ℕ → List Module → Option ℕ → Option ℕ × List Module
take_free tag modules none = (none, modules)
take_free tag modules (some i) = (
  some i,
  set modules i (record { used = true; level = inherit; name = string_copy module_name_len tag }),
)

found_or_free : List ℕ → List Module → Option ℕ → Option ℕ × List Module
found_or_free tag modules (some i) = (some i, modules)
found_or_free tag modules none = take_free tag modules (find_index (λ m. not m.used) modules)

-- `find_module_entry`, with `allocate`
unfoldable pub allocate_module : List ℕ → List Module → Option ℕ × List Module
unfolding found_or_free
allocate_module tag modules = found_or_free tag modules (find_module tag modules)

level_at : List Module → Option ℕ → ℤ
level_at modules none = inherit
level_at modules (some i) = (get_or modules i no_module).level

-- `klog_module_get_level`
unfoldable pub module_get_level : Option (List ℕ) → Log → ℤ
unfolding level_at
module_get_level name log =
    let modules : List Module = (ensure_ready log).modules in
    level_at modules (find_module (sanitize name) modules)

-- `entry->level = level`
unfoldable pub put_level : ℤ → List Module → ℕ → List Module
put_level level modules i = set modules i (record (get_or modules i no_module) { level = level })

set_allocated : ℤ → Log → Option ℕ × List Module → ℤ × Log
set_allocated level log (none, modules) = (failure, log)
set_allocated level log (some i, modules) =
    (success, record log { modules = put_level level modules i })

-- `klog_module_set_level`, with the log files not enabled
unfoldable pub module_set_level : Option (List ℕ) → ℤ → Log → ℤ × Log
unfolding set_allocated
module_set_level name level log =
    let log' : Log = ensure_ready log in
    set_allocated (if level ==ℤ inherit then inherit else pos (clamp level)) log'
      (allocate_module (sanitize name) log'.modules)

-- `klog_set_level` and `klog_get_level`
unfoldable pub set_level : ℤ → Log → Log
set_level level log = record (ensure_ready log) { level = clamp level }

unfoldable pub get_level : Log → ℕ
get_level log = (ensure_ready log).level

threshold_of : ℕ → ℤ → ℕ
threshold_of level (pos n) = n
threshold_of level (negsuc n) = level

-- `effective_threshold_for`: the level of the module, or that of the log.
unfoldable pub threshold : List ℕ → Log → ℕ
unfolding threshold_of level_at
threshold tag log = threshold_of log.level (level_at log.modules (find_module tag log.modules))

-- `level < threshold`
unfoldable pub is_below : ℤ → ℕ → Bool
is_below (pos n) threshold = ltb n threshold
is_below (negsuc n) threshold = true

-- `klog_store_entry`
unfoldable pub store_entry : Entry → Log → Log
store_entry e log = record log {
  buffer = set log.buffer log.head e;
  head = (log.head + 1) % capacity;
  count = if ltb log.count capacity then log.count + 1 else log.count;
}

-- The entry of a message, with the copies that fit.
unfoldable pub new_entry : ℕ → ℤ → List ℕ → List ℕ → Entry
new_entry seq level tag message = record {
  seq = seq;
  level = clamp level;
  tag = string_copy module_name_len tag;
  text = string_copy entry_len message;
}

-- `klog_emit_tagged`, the message not NULL: the log, and the entry that is published, if there is one.
unfoldable pub emit_tagged : Option (List ℕ) → ℤ → List ℕ → Log → Log × Option Entry
emit_tagged name level message log =
    let log' : Log = ensure_ready log in
    let tag : List ℕ = sanitize name in
    let e : Entry = new_entry log'.sequence level tag message in
    if is_below level (threshold tag log')
    then (log', none)
    else (store_entry e (record log' { sequence = (log'.sequence + 1) % 2 ^ 32 }), some e)

-- The oldest entry's place.
abbrev pub start : Log → ℕ
start log = (log.head + capacity - log.count) % capacity

-- The loop of `klog_copy`: `n` entries from the `i`th on.
unfoldable pub copy_from : List Entry → ℕ → ℕ → ℕ → List Entry
copy_from buffer start i zero = []
copy_from buffer start i (suc n) =
    get_or buffer ((start + i) % capacity) no_entry ∷ copy_from buffer start (suc i) n

-- `klog_copy`, into an array of `max` entries: what it writes, as many as it answers.
unfoldable pub copy_entries : ℕ → Log → List Entry
copy_entries max log =
    let log' : Log = ensure_ready log in copy_from log'.buffer (start log') 0 (min log'.count max)
