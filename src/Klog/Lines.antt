-- ===== src/Klog/Lines.antt =====
-- kernel/klog.c: the line of an entry in a log file, which is built in an array of fixed size.
use native.Mathlib.Nat.{pow-suc}
use pro_os.Prelude.{
  ℕ, zero, suc, ◌+◌, ◌-◌, ◌*◌, ◌/◌, ◌%◌, ◌^◌, ◌<◌, ◌≤◌, ◌≡◌, refl, ap, ◌∙◌, Bool, true, false, ◌&&◌,
  Option, none, some, List, [], ◌∷◌, ◌++◌, arith, leb, ◌==◌, if◌then◌else◌, length, take,
  length-append, length-take, take_all, Bool-cases, inl, inr,
}
use pro_os.Klog.{
  Entry, Log, emit_tagged, module_set_level, entry_len, module_name_len, copy_entries, capacity,
}
use pro_os.Prelude.Int.{ℤ, success, ◌==ℤ◌}
use pro_os.Klog.Names.{Sink, kernel, net, ipc, level_name, classify_sink}

-- The size of the array `line`
abbrev pub line_len : ℕ
line_len = entry_len + module_name_len + 48

-- `append_char`: a byte goes behind the text, if one more has room.
unfoldable pub append_char : ℕ → List ℕ → List ℕ
append_char ch text = if leb line_len (length text + 1) then text else text ++ ch ∷ []

-- `append_text`: as many bytes as have room.
unfoldable pub append_text : List ℕ → List ℕ → List ℕ
append_text more text = text ++ take (line_len - (length text + 1)) more

-- The loop of `append_u32`: the digits of the value, of which `n` have room, last one first.
unfoldable pub digits_of : ℕ → ℕ → List ℕ
digits_of zero value = []
digits_of (suc n) value =
    let rest = digits_of n (value / 10) in if value == 0 then [] else rest ++ (48 + value % 10) ∷ []

-- `append_u32`, with its array of twelve digits
unfoldable pub append_u32 : ℕ → List ℕ → List ℕ
append_u32 value text = append_text (if value == 0 then 48 ∷ [] else digits_of 12 value) text

-- The line that `klog_refresh_proc_sink` builds of an entry: "[seq] level (module): text".
unfoldable pub line : Entry → List ℕ
line e = append_text e.text (
    append_char 32 (
      append_char 58 (
        append_char 41 (
          append_text e.tag (
            append_char 40 (
              append_char 32 (
                append_text (level_name e.level)
                  (append_char 32 (append_char 93 (append_u32 e.seq (append_char 91 [])))))))))))

-- The calls of the file system that a refresh makes: directories are made, each log file is emptied,
-- and each entry's line and a newline go to the end of its file.
pub data Call : Type 0 where
  make : List ℕ → Call
  clear : Sink → Call
  append : Sink → List ℕ → Call

unfoldable pub write_lines : List Entry → List Call
write_lines [] = []
write_lines (e ∷ es) =
    let sink : Sink = classify_sink e.tag e.text in
    append sink (line e) ∷ append sink (10 ∷ []) ∷ write_lines es

-- "/System" and "/System/Logs"
abbrev pub system_path : List ℕ
system_path = b'/' ∷ b'S' ∷ b'y' ∷ b's' ∷ b't' ∷ b'e' ∷ b'm' ∷ []

abbrev pub logs_path : List ℕ
logs_path = system_path ++ b'/' ∷ b'L' ∷ b'o' ∷ b'g' ∷ b's' ∷ []

-- `log_sink_paths`: "kernel.log", "net.log" and "ipc.log" in the directory of the logs
unfoldable pub sink_path : Sink → List ℕ
sink_path kernel =
    logs_path ++ b'/' ∷ b'k' ∷ b'e' ∷ b'r' ∷ b'n' ∷ b'e' ∷ b'l' ∷ b'.' ∷ b'l' ∷ b'o' ∷ b'g' ∷ []
sink_path net = logs_path ++ b'/' ∷ b'n' ∷ b'e' ∷ b't' ∷ b'.' ∷ b'l' ∷ b'o' ∷ b'g' ∷ []
sink_path ipc = logs_path ++ b'/' ∷ b'i' ∷ b'p' ∷ b'c' ∷ b'.' ∷ b'l' ∷ b'o' ∷ b'g' ∷ []

-- `ensure_logs_directory`, with its variable `logs_directory_ready`
unfoldable pub ensure_logs_directory : Bool → List Call
ensure_logs_directory true = []
ensure_logs_directory false = make system_path ∷ make logs_path ∷ []

-- `klog_refresh_proc_sink`, enabled, and not within itself
unfoldable pub refresh : Bool → Log → List Call
refresh logs_ready log =
    ensure_logs_directory logs_ready
    ++ clear kernel ∷ clear net ∷ clear ipc ∷ write_lines (copy_entries capacity log)

abbrev is_stored : Option Entry → Bool
is_stored none = false
is_stored (some e) = true

-- `klog_enable_proc_sink`: the log files are written, and from then on `klog_emit_tagged` writes them
-- again after each message that it stores.
unfoldable pub emit_and_refresh : Bool → Option (List ℕ) → ℤ → List ℕ → Log → Log × List Call
emit_and_refresh enabled name level message log =
    let (log', stored) = emit_tagged name level message log in
    (log', if enabled && is_stored stored then refresh true log' else [])

-- `klog_module_set_level`, which writes the log files too
unfoldable pub module_set_level_and_refresh : Bool → Option (List ℕ) → ℤ → Log → ℤ × Log × List Call
module_set_level_and_refresh enabled name level log =
    let (code, log') = module_set_level name level log in
    (code, log', if enabled && (code ==ℤ success) then refresh true log' else [])

-- The number that digits stand for.
unfoldable pub value_of : ℕ → List ℕ → ℕ
value_of acc [] = acc
value_of acc (d ∷ ds) = value_of (acc * 10 + (d - 48)) ds

value_of-append :
    (acc : ℕ) (ds : List ℕ) (d : ℕ) → value_of acc (ds ++ d ∷ []) ≡ value_of acc ds * 10 + (d - 48)
unfolding value_of
value_of-append acc [] d = refl
value_of-append acc (c ∷ ds) d = value_of-append (acc * 10 + (c - 48)) ds d

digits_lem :
    (n value : ℕ)
    → value < 10 ^ n
    → (value_of 0 (digits_of n value) ≡ value) × (length (digits_of n value) ≤ n)
unfolding digits_of value_of
digits_lem zero value h = (ground arith, omega arith)
digits_lem (suc n) value h = elim (Bool-cases (value == 0)) [
  | inl z ↦ rw z (ground (arith, z), omega arith)
  | inr p ↦
      let ih = digits_lem n (value / 10) (omega (arith, h, pow-suc 10 n)) in
      rw p (
        value_of-append 0 (digits_of n (value / 10)) (48 + value % 10) ∙ omega (arith, ih),
        omega (arith, ih, length-append (digits_of n (value / 10)) ((48 + value % 10) ∷ [])),
      )
]

-- A number, written out.
abbrev pub decimal : ℕ → List ℕ
decimal value = if value == 0 then 48 ∷ [] else digits_of 12 value

decimal_lem :
    (value : ℕ)
    → value < 2 ^ 32
    → (value_of 0 (decimal value) ≡ value) × (length (decimal value) ≤ 12)
unfolding value_of
decimal_lem value h = elim (Bool-cases (value == 0)) [
  | inl z ↦ rw z (ground (arith, z), omega arith)
  | inr p ↦ rw p (digits_lem 12 value (omega arith))
]

-- A text built so far, `s`, of at most `k` bytes, and what the next call adds to it while there is room.
append_char-room :
    (ch : ℕ) (t s : List ℕ) (k : ℕ)
    → (t ≡ s) × (length s ≤ k)
    → k + 1 < line_len
    → (append_char ch t ≡ s ++ ch ∷ []) × (length (s ++ ch ∷ []) ≤ k + 1)
unfolding append_char
append_char-room ch t s k (e, l) h =
    let room : leb line_len (length s + 1) ≡ false = ground arith in
    (rw (e, room) refl, omega (arith, length-append s (ch ∷ [])))

append_text-room :
    (more t s : List ℕ) (k m : ℕ)
    → (t ≡ s) × (length s ≤ k)
    → length more ≤ m
    → k + m < line_len
    → (append_text more t ≡ s ++ more) × (length (s ++ more) ≤ k + m)
unfolding append_text
append_text-room more t s k m (e, l) lm h = (
  rw e (ap (λ x. s ++ x) (take_all (line_len - (length s + 1)) more (omega arith))),
  omega (arith, length-append s more),
)

length-level_name : (level : ℕ) → length (level_name level) ≤ 5
unfolding level_name
length-level_name level = ground arith

-- The line of an entry of the log is never cut: it is "[seq] level (module): text", and its digits
-- stand for the entry's number.
pub line_lem :
    (e : Entry)
    → e.seq < 2 ^ 32
    → length e.tag < module_name_len
    → length e.text < entry_len
    → (line e
        ≡ (91 ∷ [])
          ++ decimal e.seq
          ++ (93 ∷ [])
          ++ (32 ∷ [])
          ++ level_name e.level
          ++ (32 ∷ [])
          ++ (40 ∷ [])
          ++ e.tag
          ++ (41 ∷ [])
          ++ (58 ∷ [])
          ++ (32 ∷ [])
          ++ e.text)
      × (value_of 0 (decimal e.seq) ≡ e.seq)
      × (length (line e) < line_len)
unfolding line append_u32
line_lem e hs ht hx =
    let d = decimal_lem e.seq hs in
    let l = length-level_name e.level in
    let t1 = append_char-room 91 [] [] 0 (refl, omega arith) (omega arith) in
    let t2 = append_text-room (decimal e.seq) _ _ 1 12 t1 d.1 (omega arith) in
    let t3 = append_char-room 93 _ _ 13 t2 (omega arith) in
    let t4 = append_char-room 32 _ _ 14 t3 (omega arith) in
    let t5 = append_text-room (level_name e.level) _ _ 15 5 t4 l (omega arith) in
    let t6 = append_char-room 32 _ _ 20 t5 (omega arith) in
    let t7 = append_char-room 40 _ _ 21 t6 (omega arith) in
    let t8 = append_text-room e.tag _ _ 22 23 t7 (omega (arith, ht)) (omega arith) in
    let t9 = append_char-room 41 _ _ 45 t8 (omega arith) in
    let t10 = append_char-room 58 _ _ 46 t9 (omega arith) in
    let t11 = append_char-room 32 _ _ 47 t10 (omega arith) in
    let t12 = append_text-room e.text _ _ 48 95 t11 (omega (arith, hx)) (omega arith) in
    (t12.0, d.0, omega (arith, ap (length {A = ℕ}) t12.0, t12.1))

append_char-le : (ch : ℕ) (t : List ℕ) → length t < line_len → length (append_char ch t) < line_len
unfolding append_char
append_char-le ch t h = ground (arith, length-append t (ch ∷ []))

append_text-le : (more t : List ℕ) → length t < line_len → length (append_text more t) < line_len
unfolding append_text
append_text-le more t h = omega (
  arith,
  length-append t (take (line_len - (length t + 1)) more),
  length-take (line_len - (length t + 1)) more,
)

-- Whatever the entry is, its line and a terminator fit the array.
pub length-line : (e : Entry) → length (line e) < line_len
unfolding line append_u32
length-line e = search (append_text-le, append_char-le, empty_line) depth 14
  where
    empty_line : 0 < line_len
    empty_line = omega arith
