-- ===== src/Klog/Table.antt =====
-- The levels of the modules in kernel/klog.c.
use pro_os.Prelude.{
  ℕ, ◌<◌, ◌≤◌, ◌≡◌, ◌≢◌, ◌↔◌, ◌⊎◌, refl, sym, subst, ◌∙◌, ap, true, false, not, Option, none, some,
  List, [], ◌∷◌, arith, if◌then◌else◌, length, get_or, set, length-take, get_or-set_self,
  get_or-set_ne, set-set, take_all, length-set, Bool-cases, Option-cases, inl, inr,
}
use pro_os.Prelude.Arrays.{
  All, All-set, All-get_or, find_index, find_index-Found, find_index-set, find_index-set_found,
}
use pro_os.Prelude.Int.{ℤ, pos, failure, success, ◌==ℤ◌}
use pro_os.Klog.{
  Module, Log, no_module, inherit, module_name_len, string_copy, string_equals, clamp, init,
  ensure_ready, sanitize, is_module, find_module, take_free, allocate_module, level_at,
  module_get_level, put_level, module_set_level,
}

pub string_equals_iff : (a b : List ℕ) → (string_equals a b ≡ true) ↔ (a ≡ b)
unfolding string_equals
string_equals_iff [] [] = ground arith
string_equals_iff [] (c ∷ b) = ground arith
string_equals_iff (c ∷ a) [] = ground arith
string_equals_iff (c ∷ a) (d ∷ b) = ground (arith, string_equals_iff a b)

string_equals_self : (a : List ℕ) → string_equals a a ≡ true
string_equals_self a = (string_equals_iff a a).1 refl

-- The level that the table holds for a module.
level_of : List ℕ → List Module → ℤ
level_of tag modules = level_at modules (find_module tag modules)

-- The level that a call sets.
abbrev pub effective : ℤ → ℤ
effective level = if level ==ℤ inherit then inherit else pos (clamp level)

-- An entry of the module is written where the search for it ends, or at a free place if it fails.
level_of-set :
    (tag : List ℕ) (modules : List Module) (i : ℕ) (m : Module)
    → (find_module tag modules ≡ none) ⊎ (find_module tag modules ≡ some i)
    → i < length modules
    → is_module tag m ≡ true
    → level_of tag (set modules i m) ≡ m.level
unfolding level_of level_at find_module
level_of-set tag modules i m f h e =
    rw (find_index-set_found (is_module tag) modules i m f h e)
      (ap (λ (x : Module). x.level) (get_or-set_self modules i m no_module h))

-- An entry that is not another module's, and was not, does not change that one's level.
level_of-set_other :
    (tag : List ℕ) (modules : List Module) (i : ℕ) (m : Module)
    → is_module tag m ≡ false
    → is_module tag (get_or modules i no_module) ≡ false
    → level_of tag (set modules i m) ≡ level_of tag modules
unfolding level_of level_at find_module
level_of-set_other tag modules i m new old =
    rw (find_index-set (is_module tag) modules i m no_module (new ∙ sym old))
      (elim (Option-cases (find_index (is_module tag) modules)) [
        | inl none_found ↦ rw none_found refl
        | inr (j, found) ↦
            let f = find_index-Found (is_module tag) modules j found in
            rw found (
              ap (λ (x : Module). x.level)
                (get_or-set_ne modules i j m no_module
                  (λ e. differ tag modules i j e old (f.passes no_module))))
      ])
  where
    differ :
        (t : List ℕ) (ms : List Module) (a b : ℕ)
        → a ≡ b
        → is_module t (get_or ms a no_module) ≡ false
        → is_module t (get_or ms b no_module) ≡ true
        → ⊥
    differ t ms a b e p q = cc

-- A call that finds a place writes one entry there: the module's own or a free one becomes the module's,
-- with the level.
record Placed (tag : List ℕ) (level : ℤ) (modules after : List Module) (i : ℕ) : Type 0 where
  entry : Module
  written : after ≡ set modules i entry
  in_table : i < length modules
  search : (find_module tag modules ≡ none) ⊎ (find_module tag modules ≡ some i)
  own : is_module tag entry ≡ true
  leveled : entry.level ≡ level
  others :
      (other : List ℕ)
      → other ≢ tag
      → (is_module other entry ≡ false) × (is_module other (get_or modules i no_module) ≡ false)

Placed-found :
    (tag : List ℕ) (level : ℤ) (modules : List Module) (i : ℕ)
    → find_module tag modules ≡ some i
    → Placed tag level modules (put_level level modules i) i
unfolding find_module put_level
Placed-found tag level modules i e =
    let f = find_index-Found (is_module tag) modules i e in
    let m : Module = get_or modules i no_module in
    record {
      entry = record m { level = level };
      written = refl;
      in_table = f.in_table;
      search = inr e;
      own = f.passes no_module;
      leveled = refl;
      others = λ other ne. (
        ground (
          arith,
          f.passes no_module,
          string_equals_iff m.name tag,
          string_equals_iff m.name other,
        ),
        ground (
          arith,
          f.passes no_module,
          string_equals_iff m.name tag,
          string_equals_iff m.name other,
        ),
      );
    }

Placed-free :
    (tag : List ℕ) (level : ℤ) (modules : List Module) (i : ℕ)
    → length tag < module_name_len
    → find_module tag modules ≡ none
    → find_index (λ m. not m.used) modules ≡ some i
    → Placed tag level modules (put_level level (take_free tag modules (some i)).1 i) i
unfolding take_free put_level
Placed-free tag level modules i short n e =
    let f = find_index-Found (λ (m : Module). not m.used) modules i e in
    let new : Module = record {
      used = true;
      level = inherit;
      name = string_copy module_name_len tag;
    } in
    let whole : string_copy module_name_len tag ≡ tag = take_all 23 tag (omega arith) in
    record {
      entry = record { used = true; level = level; name = string_copy module_name_len tag };
      written =
          rw (get_or-set_self modules i new no_module f.in_table)
            (set-set modules i new (record new { level = level }));
      in_table = f.in_table;
      search = inl n;
      own = rw whole (string_equals_self tag);
      leveled = refl;
      others = λ other ne. (
        ground (arith, whole, string_equals_iff tag other, ne),
        ground (arith, f.passes no_module),
      );
    }

-- What a placed level means for the module and for the others.
Placed-levels :
    (tag : List ℕ) (level : ℤ) (modules after : List Module) (i : ℕ)
    → Placed tag level modules after i
    → (level_of tag after ≡ level)
      × ((other : List ℕ) → other ≢ tag → level_of other after ≡ level_of other modules)
Placed-levels tag level modules after i p = (
  subst (λ ms. level_of tag ms ≡ level) (sym p.written)
      (level_of-set tag modules i p.entry p.search p.in_table p.own ∙ p.leveled),
  λ other ne.
      subst (λ ms. level_of other ms ≡ level_of other modules) (sym p.written)
        (level_of-set_other other modules i p.entry (p.others other ne).0 (p.others other ne).1),
)

ready-ensure_ready : (log : Log) → (ensure_ready log).ready ≡ true
unfolding ensure_ready init
ready-ensure_ready log = elim (Bool-cases log.ready) [
  | inl y ↦ subst (λ b. (if b then log else init log).ready ≡ true) (sym y) y
  | inr n ↦ subst (λ b. (if b then log else init log).ready ≡ true) (sym n) refl
]

modules-ensure_ready : (log : Log) → log.ready ≡ true → (ensure_ready log).modules ≡ log.modules
unfolding ensure_ready
modules-ensure_ready log y =
    subst (λ b. (if b then log else init log).modules ≡ log.modules) (sym y) refl

-- The level of a module in a log that was set up, with other entries in its table.
get_level-with :
    (name : Option (List ℕ)) (log : Log) (modules : List Module)
    → module_get_level name (record (ensure_ready log) { modules = modules })
      ≡ level_of (sanitize name) modules
unfolding module_get_level level_of
get_level-with name log modules = ap (level_of (sanitize name)) (
    modules-ensure_ready (record (ensure_ready log) { modules = modules }) (ready-ensure_ready log))

-- The outcome of `klog_module_set_level` where the table changes.
abbrev pub Sets : Option (List ℕ) → ℤ → Log → ℤ × Log → Type 0
Sets name level log (code, log') =
    (code ≡ success)
    × (module_get_level name log' ≡ effective level)
    × ((other : Option (List ℕ))
        → sanitize other ≢ sanitize name
        → module_get_level other log' ≡ module_get_level other log)

-- The outcome for a module that is not in a full table.
abbrev pub Refuses : Option (List ℕ) → Log → ℤ × Log → Type 0
Refuses name log (code, log') =
    (code ≡ failure)
    × (log' ≡ ensure_ready log)
    × (find_module (sanitize name) (ensure_ready log).modules ≡ none)
    × (find_index (λ (m : Module). not m.used) (ensure_ready log).modules ≡ none)

Sets-Placed :
    (name : Option (List ℕ)) (level : ℤ) (log : Log) (after : List Module) (i : ℕ)
    → Placed (sanitize name) (effective level) (ensure_ready log).modules after i
    → Sets name level log (success, record (ensure_ready log) { modules = after })
unfolding module_get_level level_of
Sets-Placed name level log after i p =
    let l = Placed-levels (sanitize name) (effective level) (ensure_ready log).modules after i p in
    (
      refl,
      get_level-with name log after ∙ l.0,
      λ other ne. get_level-with other log after ∙ l.1 (sanitize other) ne,
    )

-- The level of a module whose name fits its array, of less than 24 bytes, is set, put into its range,
-- and read back, and no other module's level changes; the call fails only if the module has no
-- entry and all are taken, and then changes nothing.
pub module_set_level_lem :
    (name : Option (List ℕ)) (level : ℤ) (log : Log)
    → length (sanitize name) < module_name_len
    → Sets name level log (module_set_level name level log)
      ⊎ Refuses name log (module_set_level name level log)
unfolding module_set_level allocate_module take_free
module_set_level_lem name level log short =
    let tag : List ℕ = sanitize name in
    let modules : List Module = (ensure_ready log).modules in
    elim (Option-cases (find_module tag modules)) [
      | inr (i, e) ↦ inl (
          rw e (
            Sets-Placed name level log (put_level (effective level) modules i) i
              (Placed-found tag (effective level) modules i e)))
      | inl n ↦ elim (Option-cases (find_index (λ (m : Module). not m.used) modules)) [
        | inr (i, e) ↦ inl (
            rw (n, e)
              (Sets-Placed name level log
                (put_level (effective level) (take_free tag modules (some i)).1 i) i
                (Placed-free tag (effective level) modules i short n e)))
        | inl full ↦ inr (rw (n, full) (refl, refl, refl, refl))
      ]
    ]

-- No name in the table is longer than its array allows.
abbrev pub Fits : Module → Type 0
Fits m = length m.name < module_name_len

not-find_module :
    (tag : List ℕ) (modules : List Module)
    → module_name_len ≤ length tag
    → All Fits modules
    → find_module tag modules ≡ none
unfolding find_module find_index
not-find_module tag [] l f = refl
not-find_module tag (m ∷ modules) l f =
    let differ : string_equals m.name tag ≡ false =
      ground (arith, string_equals_iff m.name tag, λ (e : m.name ≡ tag). ap (length {A = ℕ}) e) in
    ground (arith, differ, not-find_module tag modules l f.1)

long-cut : (tag : List ℕ) → length (string_copy module_name_len tag) < module_name_len
long-cut tag = omega (arith, length-take 23 tag)

-- A module whose name does not fit its array, of 24 bytes or more, takes a free entry at each call, which
-- answers success, and still has no level of its own.
pub module_set_level_long :
    (name : Option (List ℕ)) (level : ℤ) (log : Log) (i : ℕ)
    → module_name_len ≤ length (sanitize name)
    → All Fits (ensure_ready log).modules
    → find_index (λ (m : Module). not m.used) (ensure_ready log).modules ≡ some i
    → let (code, log') = module_set_level name level log in
      (code ≡ success)
      × ((get_or log'.modules i no_module).used ≡ true)
      × All Fits log'.modules
      × (module_get_level name log' ≡ inherit)
unfolding module_set_level allocate_module take_free put_level level_of level_at
module_set_level_long name level log i long fits free =
    let tag : List ℕ = sanitize name in
    let modules : List Module = (ensure_ready log).modules in
    let new : Module = record {
      used = true;
      level = inherit;
      name = string_copy module_name_len tag;
    } in
    let f = find_index-Found (λ (m : Module). not m.used) modules i free in
    let n = not-find_module tag modules long fits in
    let fits' = All-set Fits modules i new fits (long-cut tag) in
    let after : List Module = put_level (effective level) (set modules i new) i in
    let all : All Fits after =
      All-set Fits (set modules i new) i
        (record (get_or (set modules i new) i no_module) { level = effective level }) fits'
        (All-get_or Fits (set modules i new) i no_module fits' (omega arith)) in
    rw (n, free)
      (
        refl,
        ap (λ (x : Module). x.used)
              (get_or-set_self (set modules i new) i
                (record (get_or (set modules i new) i no_module) { level = effective level })
                no_module (omega (arith, f.in_table, length-set modules i new)))
            ∙ ap (λ (x : Module). x.used) (get_or-set_self modules i new no_module f.in_table),
        all,
        get_level-with name log after ∙ ap (level_at after) (not-find_module tag after long all),
      )
