-- ===== src/Vfs/Devices/Entries.antt =====
-- kernel/devicefs.c: the small files in the table of devicefs, as their names find them.
use pro_os.Prelude.{
  ℕ, ◌-◌, ◌<◌, ◌≡◌, ◌≢◌, ◌↔◌, ◌⊎◌, inl, inr, refl, sym, ap, ◌∙◌, min, Bool, true, false, not, ◌&&◌,
  ◌||◌, none, some, List, [], ◌∷◌, arith, leb, ◌==◌, length, get_or, set, take, take_all,
  length-take, get_or-set_self, get_or-set_ne, set-set, set_self, Bool-cases, Option-cases,
}
use pro_os.Prelude.Arrays.{find_index, find_index-Found, find_index-set, find_index-set_found}
use pro_os.Prelude.Int.{pos, failure}
use pro_os.Vfs.Devices.{
  DataEntry, no_data, new_data, node_name_max, data_cap, names_equal, find_alias, find_data,
  allocate, own_or_new, contents_read, read_data, read_device, write_entry, write_found,
  write_device,
}
use pro_os.Vfs.Devices.Shown.{Sources}

names_equal_iff : (a b : List ℕ) → (names_equal a b ≡ true) ↔ (a ≡ b)
unfolding names_equal
names_equal_iff [] [] = ground arith
names_equal_iff [] (c ∷ b) = ground arith
names_equal_iff (c ∷ a) [] = ground arith
names_equal_iff (c ∷ a) (d ∷ b) = ground (arith, names_equal_iff a b)

-- The entry is the one of the name.
abbrev holds : List ℕ → DataEntry → Bool
holds name e = e.used && names_equal e.name name

-- An entry of the name is written where the search for it ends, or at a free place if it fails.
read_data-set :
    (name : List ℕ) (es : List DataEntry) (i size : ℕ) (e : DataEntry)
    → (find_data es name ≡ none) ⊎ (find_data es name ≡ some i)
    → i < length es
    → holds name e ≡ true
    → read_data (set es i e) size (find_data (set es i e) name) ≡ contents_read size e
unfolding read_data find_data
read_data-set name es i size e f h t =
    rw (find_index-set_found (holds name) es i e f h t)
      (ap (contents_read size) (get_or-set_self es i e no_data h))

-- An entry that is not of another name, and was not, does not change what that one shows.
read_data-set_other :
    (name : List ℕ) (es : List DataEntry) (i size : ℕ) (e : DataEntry)
    → holds name e ≡ false
    → holds name (get_or es i no_data) ≡ false
    → read_data (set es i e) size (find_data (set es i e) name)
      ≡ read_data es size (find_data es name)
unfolding read_data find_data
read_data-set_other name es i size e new old =
    rw (find_index-set (holds name) es i e no_data (new ∙ sym old))
      (elim (Option-cases (find_index (holds name) es)) [
        | inl n ↦ rw n refl
        | inr (j, found) ↦
            let f = find_index-Found (holds name) es j found in
            rw found (
              ap (contents_read size)
                (get_or-set_ne es i j e no_data (λ q. differ name es i j q old (f.passes no_data))))
      ])
  where
    differ :
        (t : List ℕ) (ms : List DataEntry) (a b : ℕ)
        → a ≡ b
        → holds t (get_or ms a no_data) ≡ false
        → holds t (get_or ms b no_data) ≡ true
        → ⊥
    differ t ms a b e p q = cc

-- Where a write to a name goes: the name's own entry, or a free one that becomes the name's.
record Placed (path : List ℕ) (es after : List DataEntry) (i : ℕ) : Type 0 where
  entry : DataEntry
  written : after ≡ set es i entry
  in_table : i < length es
  search : (find_data es path ≡ none) ⊎ (find_data es path ≡ some i)
  own : holds path entry ≡ true
  others : (other : List ℕ) → other ≢ path → holds other (get_or es i no_data) ≡ false

other_name :
    (path other : List ℕ) (e : DataEntry)
    → other ≢ path
    → holds path e ≡ true
    → holds other e ≡ false
other_name path other e d h =
    ground (arith, names_equal_iff e.name path, names_equal_iff e.name other)

placed :
    (es : List DataEntry) (path : List ℕ)
    → length path < node_name_max
    → ((own_or_new es path (find_data es path) ≡ (none, es)) × (find_data es path ≡ none))
      ⊎ ((i : ℕ) × (after : List DataEntry) × (own_or_new es path (find_data es path)
            ≡ (some i, after))
          × Placed path es after i)
unfolding own_or_new allocate find_data
placed es path short = elim (Option-cases (find_data es path)) [
  | inr (i, e) ↦
      let f = find_index-Found (holds path) es i e in
      inr (
        i,
        es,
        rw e refl,
        record {
          entry = get_or es i no_data;
          written = sym (set_self es i no_data);
          in_table = f.in_table;
          search = inr e;
          own = f.passes no_data;
          others = λ other d. other_name path other (get_or es i no_data) d (f.passes no_data);
        },
      )
  | inl n ↦ elim (Option-cases (find_index (λ e. not e.used) es)) [
    | inl full ↦ inl (rw n (rw full refl), n)
    | inr (i, e) ↦
        let f = find_index-Found (λ (x : DataEntry). not x.used) es i e in
        let whole : take (node_name_max - 1) path ≡ path =
          take_all (node_name_max - 1) path (omega arith) in
        inr (
          i,
          set es i (new_data path),
          rw n (rw e refl),
          record {
            entry = new_data path;
            written = refl;
            in_table = f.in_table;
            search = inl n;
            own = (names_equal_iff (take (node_name_max - 1) path) path).1 whole;
            others = λ other d. ground (arith, f.passes no_data);
          },
        )
  ]
]

-- An entry that takes a text holds its first 511 bytes, under the name that it had.
write_entry_lem :
    (path bytes : List ℕ) (e : DataEntry)
    → holds path e ≡ true
    → ((write_entry e bytes true).0 ≡ pos (min (length bytes) (data_cap - 1)))
      × ((write_entry e bytes true).1.bytes ≡ take (min (length bytes) (data_cap - 1)) bytes)
      × ((name : List ℕ) → holds name (write_entry e bytes true).1 ≡ holds name e)
unfolding write_entry
write_entry_lem path [] e h = (refl, refl, λ name. refl)
write_entry_lem path (c ∷ bytes) e h =
    let some_bytes : (length (c ∷ bytes) == 0) ≡ false = ground arith in
    rw some_bytes (refl, refl, λ name. refl)

module _ (src : Sources) (path : List ℕ) (es : List DataEntry) where
  -- What a successful write leaves: the file shows the text, and every other name shows what it did.
  abbrev pub Shows : List ℕ → List DataEntry → Type 0
  Shows text after =
      (read_device src after path data_cap ≡ (pos (length text), text))
      × ((other : List ℕ) (size : ℕ)
          → other ≢ path
          → read_device src after other size ≡ read_device src es other size)

  shown :
      (i : ℕ) (e : DataEntry) (text : List ℕ)
      → length path ≢ 0
      → find_alias path ≡ none
      → (find_data es path ≡ none) ⊎ (find_data es path ≡ some i)
      → i < length es
      → holds path e ≡ true
      → ((other : List ℕ) → other ≢ path → holds other (get_or es i no_data) ≡ false)
      → e.bytes ≡ text
      → length text < data_cap
      → Shows text (set es i e)
  unfolding read_device
  shown i e text full plain search h own others b l =
      let some_path : (length path == 0) ≡ false = ground (arith, full) in
      let room : leb data_cap (length text) ≡ false = ground arith in
      (
        rw (some_path, plain, read_data-set path es i data_cap e search h own)
            (rw (b, room) (rw (take_all (length text) text (omega arith)) refl)),
        λ other size d. elim (Bool-cases ((length other == 0) || (size == 0))) [
          | inl bad ↦ rw bad refl
          | inr good ↦ elim (Option-cases (find_alias other)) [
            | inr (kind, a) ↦ rw (good, a) refl
            | inl n ↦
                rw (good, n)
                  (read_data-set_other other es i size e (other_name path other e d own)
                    (others other d))
          ]
        ],
      )

-- Replacing a file of the table, whose name is no device's and has 1 to 31 bytes, fails without a change only where
-- the name has no entry. Otherwise the first 511 bytes of the data are stored, the answer is their
-- number, reading the name gives them back, and what any other name shows is unchanged.
pub write_device_lem :
    (src : Sources) (es : List DataEntry) (path bytes : List ℕ)
    → length path ≢ 0
    → length path < node_name_max
    → find_alias path ≡ none
    → let (code, after) = write_device es path bytes true in
      ((code ≡ failure) × (after ≡ es) × (find_data es path ≡ none))
      ⊎ ((code ≡ pos (min (length bytes) (data_cap - 1)))
          × Shows src path es (take (min (length bytes) (data_cap - 1)) bytes) after)
unfolding write_device write_found
write_device_lem src es path bytes full short plain =
    let some_path : (length path == 0) ≡ false = ground (arith, full) in
    elim (placed es path short) [
      | inl (n, m) ↦ rw (some_path, plain) (rw n (inl (refl, refl, m)))
      | inr (i, after, e, p) ↦
          let w = write_entry_lem path bytes p.entry p.own in
          let stored : List ℕ = take (min (length bytes) (data_cap - 1)) bytes in
          let at : get_or after i no_data ≡ p.entry =
            ap (λ xs. get_or xs i no_data) p.written
            ∙ get_or-set_self es i p.entry no_data p.in_table in
          let result : set after i (write_entry p.entry bytes true).1
              ≡ set es i (write_entry p.entry bytes true).1 =
            ap (λ xs. set xs i (write_entry p.entry bytes true).1) p.written
            ∙ set-set es i p.entry (write_entry p.entry bytes true).1 in
          rw (some_path, plain)
            (rw e (
              rw at (
                inr (
                  w.0,
                  rw result (
                      shown src path es i (write_entry p.entry bytes true).1 stored full plain
                        p.search p.in_table (w.2 path ∙ p.own) p.others w.1
                        (omega (arith, length-take (min (length bytes) (data_cap - 1)) bytes))),
                ))))
    ]
