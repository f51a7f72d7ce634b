-- ===== src/Klog/Tests.antt =====
-- Runs of kernel/klog.c, and its theorems at concrete messages and modules.
use pro_os.Prelude.{
  ℕ, ◌+◌, ◌%◌, ◌^◌, ◌<◌, ◌≤◌, not, ◌≡◌, refl, false, none, some, List, [], ◌∷◌, ◌++◌, arith,
  if◌then◌else◌, length, replicate,
}
use pro_os.Prelude.Arrays.{All, All-replicate, find_index}
use pro_os.Prelude.Int.{pos, failure}
use pro_os.Klog.{
  init, max_modules, Module, Log, Entry, no_module, sanitize, threshold, is_below, new_entry,
  emit_tagged, ensure_ready,
}
use pro_os.Klog.Names.{
  has_prefix_ignore_case, to_lower, level_name, level_from_name, classify_sink, net, to_upper,
  skip_spaces, token, read_number, level_from_token,
}
use pro_os.Klog.Lines.{line, line_len, decimal, value_of, line_lem}
use pro_os.Klog.Ring.{IsLog, entries, remember, emit_tagged_refines}
use pro_os.Klog.Table.{Fits}

-- Static memory, before the first call.
abbrev unused : Log
unused = record {
  buffer = [];
  count = 0;
  head = 0;
  sequence = 0;
  level = 1;
  ready = false;
  modules = [];
}

abbrev disk : List ℕ
disk = 100 ∷ 105 ∷ 115 ∷ 107 ∷ []

-- 24 bytes
abbrev long_name : List ℕ
long_name = replicate 24 120

numbers : level_from_name (32 ∷ 50 ∷ []) ≡ pos 2
unfolding level_from_name token skip_spaces level_from_token read_number to_upper
numbers = refl

bad_number : level_from_name (50 ∷ 49 ∷ []) ≡ failure
unfolding level_from_name token skip_spaces level_from_token read_number to_upper
bad_number = refl

sinks : classify_sink (78 ∷ 69 ∷ 84 ∷ 48 ∷ []) disk ≡ net
unfolding classify_sink has_prefix_ignore_case to_lower
sinks = refl

short_disk : length (sanitize (some disk)) < 24
unfolding sanitize
short_disk = omega arith

long_disk : 24 ≤ length (sanitize (some long_name))
unfolding sanitize
long_disk = omega arith

unused-Fits : All Fits (ensure_ready unused).modules
unfolding ensure_ready init
unused-Fits = All-replicate Fits max_modules no_module (omega arith)

unused_free : find_index (λ (m : Module). not m.used) (ensure_ready unused).modules ≡ some 0
unfolding ensure_ready init find_index
unused_free = refl

emit_tagged_refines_example :
    let (log', published) = emit_tagged (some disk) (pos 2) disk unused in
    let before = ensure_ready unused in
    let e = new_entry before.sequence (pos 2) (sanitize (some disk)) disk in
    let below = is_below (pos 2) (threshold (sanitize (some disk)) before) in
    IsLog log'
    × (entries log' ≡ (if below then entries before else remember e (entries before)))
    × (log'.sequence ≡ (if below then before.sequence else (before.sequence + 1) % 2 ^ 32))
    × (published ≡ (if below then none else some e))
emit_tagged_refines_example = emit_tagged_refines (some disk) (pos 2) disk unused (λ h. absurd (cc))

abbrev entry : Entry
entry = record { seq = 41; level = 1; tag = disk; text = disk }

line_lem_example :
    (line entry
      ≡ (91 ∷ [])
        ++ decimal 41
        ++ (93 ∷ [])
        ++ (32 ∷ [])
        ++ level_name 1
        ++ (32 ∷ [])
        ++ (40 ∷ [])
        ++ disk
        ++ (41 ∷ [])
        ++ (58 ∷ [])
        ++ (32 ∷ [])
        ++ disk)
    × (value_of 0 (decimal 41) ≡ 41)
    × (length (line entry) < line_len)
line_lem_example = line_lem entry (omega arith) (omega arith) (omega arith)
