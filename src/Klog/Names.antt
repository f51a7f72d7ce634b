-- ===== src/Klog/Names.antt =====
-- kernel/klog.c: the names of the levels, and the file that an entry goes to.
use pro_os.Prelude.{
  ℕ, zero, suc, ◌+◌, ◌-◌, ◌*◌, Bool, true, false, ◌&&◌, ◌||◌, List, [], ◌∷◌, map, arith, ltb, leb,
  ◌==◌, if◌then◌else◌, ◌≡◌, refl, ◌<◌, ◌++◌, replicate,
}
use pro_os.Prelude.Int.{ℤ, pos, failure}
use pro_os.Klog.{string_equals, error}

-- The texts "DEBUG", "INFO", "WARN", "ERROR", "WARNING" and "ERR".
abbrev pub text_debug : List ℕ
text_debug = 68 ∷ 69 ∷ 66 ∷ 85 ∷ 71 ∷ []

abbrev pub text_info : List ℕ
text_info = 73 ∷ 78 ∷ 70 ∷ 79 ∷ []

abbrev pub text_warn : List ℕ
text_warn = 87 ∷ 65 ∷ 82 ∷ 78 ∷ []

abbrev pub text_error : List ℕ
text_error = 69 ∷ 82 ∷ 82 ∷ 79 ∷ 82 ∷ []

abbrev pub text_warning : List ℕ
text_warning = 87 ∷ 65 ∷ 82 ∷ 78 ∷ 73 ∷ 78 ∷ 71 ∷ []

abbrev pub text_err : List ℕ
text_err = 69 ∷ 82 ∷ 82 ∷ []

-- `klog_level_name`
unfoldable pub level_name : ℕ → List ℕ
level_name level =
    if level == 0
    then text_debug
    else if level == 1
    then text_info
    else if level == 2
    then text_warn
    else text_error

-- `to_upper`
unfoldable pub to_upper : ℕ → ℕ
to_upper c = if leb 97 c && leb c 122 then c - 32 else c

-- The spaces in front of a name are skipped.
unfoldable pub skip_spaces : List ℕ → List ℕ
skip_spaces [] = []
skip_spaces (c ∷ name) = let rest = skip_spaces name in if c == 32 then rest else c ∷ name

-- The token: at most `n` bytes up to the next space.
unfoldable pub token : ℕ → List ℕ → List ℕ
token zero name = []
token (suc n) [] = []
token (suc n) (c ∷ name) = if c == 32 then [] else to_upper c ∷ token n name

-- How the loop over the digits ends: with a number, at a byte that is no digit, or with a number that
-- is no level.
pub data Number : Type 0 where
  number : ℕ → Number
  no_number : Number
  too_large : Number

unfoldable pub read_number : List ℕ → ℕ → Number
read_number [] value = number value
read_number (c ∷ rest) value =
    let next : ℕ = value * 10 + (c - 48) in
    let more : Number = read_number rest next in
    if leb 48 c && leb c 57 then if ltb error next then too_large else more else no_number

unfoldable pub level_from_word : List ℕ → ℤ
level_from_word t =
    if string_equals t text_debug
    then pos 0
    else if string_equals t text_info
    then pos 1
    else if string_equals t text_warn || string_equals t text_warning
    then pos 2
    else if string_equals t text_error || string_equals t text_err
    then pos 3
    else failure

level_of_number : List ℕ → Number → ℤ
level_of_number t (number n) = pos n
level_of_number t no_number = level_from_word t
level_of_number t too_large = failure

-- What the token says.
unfoldable pub level_from_token : List ℕ → ℤ
unfolding level_of_number
level_from_token [] = failure
level_from_token (c ∷ t) = level_of_number (c ∷ t) (read_number (c ∷ t) 0)

-- `klog_level_from_name`, the name not NULL; `token` has room for seven bytes.
unfoldable pub level_from_name : List ℕ → ℤ
level_from_name name = level_from_token (token 7 (skip_spaces name))

-- `to_lower_ascii`
unfoldable pub to_lower : ℕ → ℕ
to_lower c = if leb 65 c && leb c 90 then c + 32 else c

-- `string_has_prefix_ignore_case`, and `string_equals_ignore_case`
unfoldable pub has_prefix_ignore_case : List ℕ → List ℕ → Bool
has_prefix_ignore_case text [] = true
has_prefix_ignore_case [] (p ∷ prefix) = false
has_prefix_ignore_case (c ∷ text) (p ∷ prefix) =
    (to_lower c == to_lower p) && has_prefix_ignore_case text prefix

unfoldable pub equals_ignore_case : List ℕ → List ℕ → Bool
equals_ignore_case a b = string_equals (map to_lower a) (map to_lower b)

-- `enum log_sink_kind`
pub data Sink : Type 0 where
  kernel : Sink
  net : Sink
  ipc : Sink

-- The texts "net", "netd", "ipc", "logd", "net:" and "ipc:".
abbrev pub text_net : List ℕ
text_net = 110 ∷ 101 ∷ 116 ∷ []

abbrev pub text_netd : List ℕ
text_netd = 110 ∷ 101 ∷ 116 ∷ 100 ∷ []

abbrev pub text_ipc : List ℕ
text_ipc = 105 ∷ 112 ∷ 99 ∷ []

abbrev pub text_logd : List ℕ
text_logd = 108 ∷ 111 ∷ 103 ∷ 100 ∷ []

-- `classify_log_sink` by the text, where the module does not decide.
unfoldable pub sink_of_text : List ℕ → Sink
sink_of_text text =
    if has_prefix_ignore_case text (110 ∷ 101 ∷ 116 ∷ 58 ∷ [])
    then net
    else if has_prefix_ignore_case text (105 ∷ 112 ∷ 99 ∷ 58 ∷ [])
    then ipc
    else kernel

-- `classify_log_sink`: an empty module or text decides nothing.
unfoldable pub classify_sink : List ℕ → List ℕ → Sink
classify_sink tag text =
    if has_prefix_ignore_case tag text_net
    then net
    else if equals_ignore_case tag text_netd
    then net
    else if has_prefix_ignore_case tag text_ipc
    then ipc
    else if equals_ignore_case tag text_logd
    then ipc
    else sink_of_text text

skip_spaces-replicate :
    (n : ℕ) (name : List ℕ) → skip_spaces (replicate n 32 ++ name) ≡ skip_spaces name
unfolding skip_spaces
skip_spaces-replicate zero name = refl
skip_spaces-replicate (suc n) name = skip_spaces-replicate n name

-- A level's name, with spaces in front and any text after a further space, is read as the level.
pub level_from_name-level_name :
    (n level : ℕ) (rest : List ℕ)
    → level < 4
    → level_from_name (replicate n 32 ++ (level_name level ++ 32 ∷ rest)) ≡ pos level
unfolding level_from_name level_name token skip_spaces level_from_token read_number level_from_word
    to_upper string_equals
level_from_name-level_name n level rest h =
    rw (skip_spaces-replicate n (level_name level ++ 32 ∷ rest)) (cases level h)
  where
    cases : (k : ℕ) → k < 4 → level_from_name (level_name k ++ 32 ∷ rest) ≡ pos k
    cases zero h = refl
    cases (suc zero) h = refl
    cases (suc (suc zero)) h = refl
    cases (suc (suc (suc zero))) h = refl
    cases (suc (suc (suc (suc k)))) h = absurd (omega arith)
