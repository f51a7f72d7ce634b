-- ===== src/Inet/Arp/Cache.antt =====
-- The cache of kernel/arp.c: which entry a store writes, and what a lookup finds afterwards.
use pro_os.Prelude.{
  get_or-set_self, get_or-set_ne, ◌≢◌, ℕ, zero, suc, ◌+◌, ◌<◌, ◌≤◌, ◌≡◌, ◌⊎◌, inl, inr, refl, true,
  false, ◌&&◌, none, some, List, [], ◌∷◌, arith, ◌==◌, if◌then◌else◌, length, get_or, set, ◌^◌, ◌-◌,
  Bool-cases,
}
use pro_os.Prelude.Arrays.{find_index, find_index-set_found, find_index-Found, find_index-none}
use pro_os.Inet.{Entry}
use pro_os.Inet.Arp.{
  cache_capacity, no_entry, ipv4_equal, is_free, is_entry_of, is_older, Scan, hit, miss, scan,
  target, place, cache_store, cache_lookup,
}

-- Entry `i` is in use, and no entry in use is older.
pub record IsOldest (cache : List Entry) (i : ℕ) : Type 0 where
  pub in_table : i < length cache
  pub used : is_free (get_or cache i no_entry) ≡ false
  pub oldest :
      (j : ℕ)
      → is_free (get_or cache j no_entry) ≡ false
      → (get_or cache i no_entry).updated ≤ (get_or cache j no_entry).updated

IsOldest-later :
    (e : Entry) (es : List Entry) (k : ℕ)
    → (is_free e ≡ false → (get_or es k no_entry).updated ≤ e.updated)
    → IsOldest es k
    → IsOldest (e ∷ es) (suc k)
IsOldest-later e es k h o = record {
  in_table = omega (arith, o.in_table);
  used = o.used;
  oldest = elim [ zero ↦ h | suc j ↦ o.oldest j ];
}

IsOldest-first :
    (e : Entry) (es : List Entry)
    → is_free e ≡ false
    → ((j : ℕ)
        → is_free (get_or es j no_entry) ≡ false
        → e.updated ≤ (get_or es j no_entry).updated)
    → IsOldest (e ∷ es) 0
IsOldest-first e es h o = record {
  in_table = omega arith;
  used = h;
  oldest = elim [ zero ↦ λ _. omega arith | suc j ↦ o j ];
}

module _ (dev : ℕ) (ipv4 : List ℕ) where
  scan_hit :
      (es : List Entry) (i free oldest time k : ℕ)
      → scan dev ipv4 es i free oldest time ≡ hit k
      → (j : ℕ) × (k ≡ i + j) × (find_index (is_entry_of dev ipv4) es ≡ some j)
  unfolding scan find_index
  scan_hit [] i free oldest time k h = ground arith
  scan_hit (e ∷ es) i free oldest time k h = elim (Bool-cases (is_entry_of dev ipv4 e)) [
    | inl y ↦ (0, ground (arith, y), rw y refl)
    | inr n ↦
        let r =
          scan_hit es (suc i) (if is_free e && (free == cache_capacity) then i else free)
            (if is_older e time then i else oldest) (if is_older e time then e.updated else time) k
            (ground (arith, n)) in
        (suc r.0, omega (arith, r.1), rw (n, r.2) refl)
  ]

  scan_no_entry :
      (es : List Entry) (i free oldest time f o : ℕ)
      → scan dev ipv4 es i free oldest time ≡ miss f o
      → find_index (is_entry_of dev ipv4) es ≡ none
  unfolding scan find_index
  scan_no_entry [] i free oldest time f o h = refl
  scan_no_entry (e ∷ es) i free oldest time f o h = ground (
    arith,
    scan_no_entry es (suc i) (if is_free e && (free == cache_capacity) then i else free)
        (if is_older e time then i else oldest) (if is_older e time then e.updated else time) f o,
  )

  scan_kept_free :
      (es : List Entry) (i free oldest time f o : ℕ)
      → scan dev ipv4 es i free oldest time ≡ miss f o
      → (free == cache_capacity) ≡ false
      → f ≡ free
  unfolding scan
  scan_kept_free [] i free oldest time f o h n = ground arith
  scan_kept_free (e ∷ es) i free oldest time f o h n = ground (
    arith,
    scan_kept_free es (suc i) (if is_free e && (free == cache_capacity) then i else free)
        (if is_older e time then i else oldest) (if is_older e time then e.updated else time) f o,
  )

  -- The first free entry, if there is one.
  scan_free :
      (es : List Entry) (i oldest time f o : ℕ)
      → scan dev ipv4 es i cache_capacity oldest time ≡ miss f o
      → i + length es ≤ cache_capacity
      → ((find_index is_free es ≡ none) × (f ≡ cache_capacity))
        ⊎ ((j : ℕ) × (find_index is_free es ≡ some j) × (f ≡ i + j) × (j < length es))
  unfolding scan find_index
  scan_free [] i oldest time f o h l = inl (refl, ground arith)
  scan_free (e ∷ es) i oldest time f o h l = elim (Bool-cases (is_free e)) [
    | inl y ↦ inr (
      0,
      rw y refl,
      ground (
        arith,
        y,
        scan_kept_free es (suc i) i (if is_older e time then i else oldest)
            (if is_older e time then e.updated else time) f o,
      ),
      omega arith,
    )
    | inr n ↦
        elim (scan_free es (suc i) (if is_older e time then i else oldest)
          (if is_older e time then e.updated else time) f o (ground (arith, n)) (omega arith)) [
            | inl r ↦ inl (ground (arith, r, n), r.1)
            | inr (j, a, b, c) ↦ inr (suc j, rw (n, a) refl, omega (arith, b), omega (arith, c))
          ]
  ]

  -- The oldest entry in use of those that are older than `time`, if there are any.
  scan-IsOldest :
      (es : List Entry) (i free oldest time f o : ℕ)
      → scan dev ipv4 es i free oldest time ≡ miss f o
      → ((o ≡ oldest)
          × ((j : ℕ)
              → is_free (get_or es j no_entry) ≡ false
              → time ≤ (get_or es j no_entry).updated))
        ⊎ ((k : ℕ) × (o ≡ i + k) × IsOldest es k × ((get_or es k no_entry).updated < time))
  unfolding scan
  scan-IsOldest [] i free oldest time f o h = inl (ground arith, λ j n. ground arith)
  scan-IsOldest (e ∷ es) i free oldest time f o h =
      let new_free : ℕ = if is_free e && (free == cache_capacity) then i else free in
      elim (Bool-cases (is_older e time)) [
        | inl y ↦ elim (scan-IsOldest es (suc i) new_free i e.updated f o (ground (arith, h, y))) [
          | inl (a, b) ↦
              inr
                (0, omega (arith, a), IsOldest-first e es (ground (arith, y)) b, ground (arith, y))
          | inr (k, a, b, c) ↦ inr (
            suc k,
            omega (arith, a),
            IsOldest-later e es k (λ _. omega (arith, c)) b,
            ground (arith, y, c),
          )
        ]
        | inr n ↦ elim (scan-IsOldest es (suc i) new_free oldest time f o (ground (arith, h, n))) [
          | inl (a, b) ↦ inl (a, elim [ zero ↦ λ u. ground (arith, n, u) | suc j ↦ b j ])
          | inr (k, a, b, c) ↦
              inr
                (suc k, omega (arith, a), IsOldest-later e es k (λ u. ground (arith, n, u, c)) b, c)
        ]
      ]

-- What a store does: it renews the entry of the address, or else fills the first free entry, or else
-- overwrites the oldest one.
abbrev pub Written : ℕ → List ℕ → List Entry → ℕ → Type 0
Written dev ipv4 cache i =
    (find_index (is_entry_of dev ipv4) cache ≡ some i)
    ⊎ ((find_index (is_entry_of dev ipv4) cache ≡ none) × (find_index is_free cache ≡ some i))
    ⊎ ((find_index (is_entry_of dev ipv4) cache ≡ none)
        × (find_index is_free cache ≡ none)
        × IsOldest cache i)

module _ (now dev : ℕ) (ipv4 mac : List ℕ) (cache : List Entry) where
  -- What holds of the cache `cache'` after entry `i` was written.
  abbrev pub Renewed : List Entry → ℕ → Type 0
  Renewed cache' i =
      (is_entry_of dev ipv4 (get_or cache' i no_entry) ≡ true)
      × ((get_or cache' i no_entry).updated ≡ now)
      × ((j : ℕ) → i ≢ j → get_or cache' j no_entry ≡ get_or cache j no_entry)
      × (cache_lookup dev ipv4 cache' ≡ some mac)

  set-Renewed :
      (i : ℕ) (v : Entry)
      → (find_index (is_entry_of dev ipv4) cache ≡ none)
        ⊎ (find_index (is_entry_of dev ipv4) cache ≡ some i)
      → i < length cache
      → is_entry_of dev ipv4 v ≡ true
      → v.updated ≡ now
      → v.mac ≡ mac
      → Renewed (set cache i v) i
  unfolding cache_lookup find_index
  set-Renewed i v found h e u m =
      let at : get_or (set cache i v) i no_entry ≡ v = get_or-set_self cache i v no_entry h in
      (
        rw at e,
        rw at u,
        λ j ne. get_or-set_ne cache i j v no_entry ne,
        rw (find_index-set_found (is_entry_of dev ipv4) cache i v found h e, at) (rw m refl),
      )

  -- The entry of a miss.
  new_entry : Entry
  new_entry = record { device = some dev; ipv4 = ipv4; mac = mac; updated = now }

  new_entry-match : is_entry_of dev ipv4 new_entry ≡ true
  unfolding new_entry is_entry_of ipv4_equal
  new_entry-match = ground arith

  Written-target :
      (f o : ℕ)
      → scan dev ipv4 cache 0 cache_capacity cache_capacity (2 ^ 64 - 1) ≡ miss f o
      → length cache ≡ cache_capacity
      → ((j : ℕ) → (get_or cache j no_entry).updated < 2 ^ 64 - 1)
      → Written dev ipv4 cache (target f o) × (target f o < length cache)
  unfolding target
  Written-target f o e l t =
      let missing =
        scan_no_entry dev ipv4 cache 0 cache_capacity cache_capacity (2 ^ 64 - 1) f o e in
      elim (scan_free dev ipv4 cache 0 cache_capacity (2 ^ 64 - 1) f o e (omega arith)) [
        | inr (j, a, b, c) ↦
            let at : target f o ≡ j = ground arith in
            (inr (inl (missing, rw at a)), omega (arith, at))
        | inl (full, a) ↦
            elim (scan-IsOldest dev ipv4 cache 0 cache_capacity cache_capacity (2 ^ 64 - 1) f o e) [
              | inl (b, c) ↦ absurd (
                  omega
                    (arith, c 0 (find_index-none is_free cache 0 no_entry full (omega arith)), t 0))
              | inr (k, b, c, _) ↦
                  let at : target f o ≡ k = ground (arith, c.in_table) in
                  (inr (inr (missing, full, rw at c)), omega (arith, at, c.in_table))
            ]
      ]

  after_scan :
      (r : Scan)
      → scan dev ipv4 cache 0 cache_capacity cache_capacity (2 ^ 64 - 1) ≡ r
      → length cache ≡ cache_capacity
      → ((j : ℕ) → (get_or cache j no_entry).updated < 2 ^ 64 - 1)
      → (i : ℕ) × Written dev ipv4 cache i × Renewed (place now dev ipv4 mac cache r) i
  unfolding place is_entry_of new_entry
  after_scan (hit i) e l t =
      let (j, a, b) = scan_hit dev ipv4 cache 0 cache_capacity cache_capacity (2 ^ 64 - 1) i e in
      let found : find_index (is_entry_of dev ipv4) cache ≡ some i = ground (arith, a, b) in
      let f = find_index-Found (is_entry_of dev ipv4) cache i found in
      (
        i,
        inl found,
        set-Renewed i (record (get_or cache i no_entry) { mac = mac; updated = now }) (inr found)
            f.in_table (f.passes no_entry) refl refl,
      )
  after_scan (miss f o) e l t =
      let (w, h) = Written-target f o e l t in
      (
        target f o,
        w,
        set-Renewed (target f o) new_entry
            (inl (scan_no_entry dev ipv4 cache 0 cache_capacity cache_capacity (2 ^ 64 - 1) f o e))
            h new_entry-match refl refl,
      )

  -- A store into a cache of eight entries, none of them stamped 2^64 - 1, writes one entry: the one of
  -- the address, or else the first free one, or else the oldest. It is now that of the address, with the
  -- time of the call; the others are unchanged, and a lookup finds the hardware address given.
  pub cache_store_lem :
      (length cache ≡ cache_capacity)
      → ((j : ℕ) → (get_or cache j no_entry).updated < 2 ^ 64 - 1)
      → (i : ℕ) × Written dev ipv4 cache i × Renewed (cache_store now dev ipv4 mac cache) i
  unfolding cache_store
  cache_store_lem l t =
      after_scan (scan dev ipv4 cache 0 cache_capacity cache_capacity (2 ^ 64 - 1)) refl l t
