-- ===== src/Cache/Eviction.antt =====
-- What `evictIfNeeded` of internal/cache/store.go guarantee.
use hybridgrid.Prelude.{
  ℕ, ◌*◌, ◌/◌, ◌%◌, ◌≤◌, ◌<◌, String, str_eq, ◌≡◌, refl, sym, ◌∙◌, ap, ◌⊎◌, inl, inr, true, false,
  none, some, List, [], ◌∷◌, length, arith, Bool-cases, All, eq_iff, subst,
}
use native.Mathlib.Nat.{mod-eq_of_lt}
use hybridgrid.Prelude.Int.{word, ℤ, pos, half64, leb_ℤ, quot_ℤ}
use hybridgrid.Prelude.Maps.{lookup, total, lookup-erase}
use hybridgrid.Cache.Store.{
  int64, Entry, Store, forget, exchange_sort, evict, low_water, evict_if_needed,
}
use hybridgrid.Cache.Order.{Ordered, NoEarlier, exchange_sort-Ordered}
use hybridgrid.Cache.Accounting.{
  IsValid, Agrees, Agrees-head, Agrees-forget, sorted-Agrees, evict-IsValid, sizes,
}

forget-keeps :
    (k : String) (e : Entry) (s : Store) (j : String) (f : Entry)
    → lookup j (forget k e s).entries ≡ some f
    → lookup j s.entries ≡ some f
unfolding forget
forget-keeps k e s j f h = ground (arith, lookup-erase k j s.entries)

forget-other :
    (k : String) (d : Entry) (s : Store) (j : String)
    → str_eq k j ≡ false
    → lookup j (forget k d s).entries ≡ lookup j s.entries
unfolding forget
forget-other k d s j h = ground (arith, lookup-erase k j s.entries)

-- An eviction changes no entry that it keeps.
evict-keeps :
    (limit : ℤ) (sorted : List (String × Entry)) (s : Store) (j : String) (f : Entry)
    → lookup j (evict limit sorted s).entries ≡ some f
    → lookup j s.entries ≡ some f
unfolding evict
evict-keeps limit [] s j f h = h
evict-keeps limit ((k, e) ∷ sorted) s j f h = elim (Bool-cases (leb_ℤ (int64 s.total_size) limit)) [
  | inl c ↦ rw c at h
  | inr c ↦ forget-keeps k e s j f (evict-keeps limit sorted (forget k e s) j f (rw c at h))
]

-- All entries of a list of which one is found under a key.
All-lookup :
    (P : String × Entry → Type 0) (j : String) (f : Entry) (xs : List (String × Entry))
    → ((k : String) → P (k, f) → P (j, f))
    → All P xs
    → lookup j xs ≡ some f
    → P (j, f)
unfolding lookup
All-lookup P j f [] g h e = cc
All-lookup P j f (x ∷ xs) g (p, h) e = elim (Bool-cases (str_eq x.0 j)) [
  | inl c ↦ let same : x.1 ≡ f = ground arith in g x.0 (rw (← same) p)
  | inr c ↦ All-lookup P j f xs g h (rw c at e)
]

evict-oldest :
    (limit : ℤ) (sorted : List (String × Entry)) (s : Store) (k j : String) (e f : Entry)
    → Agrees sorted s
    → Ordered sorted
    → lookup k s.entries ≡ some e
    → lookup k (evict limit sorted s).entries ≡ none
    → lookup j (evict limit sorted s).entries ≡ some f
    → e.accessed_at ≤ f.accessed_at
unfolding evict
evict-oldest limit [] s k j e f a o found gone kept = absurd (cc)
evict-oldest limit ((i, d) ∷ sorted) s k j e f a (least, o) found gone kept =
    elim (Bool-cases (leb_ℤ (int64 s.total_size) limit)) [
      | inl c ↦ let same : lookup k s.entries ≡ none = rw c at gone in absurd (cc)
      | inr c ↦
          let gone' = rw c at gone in
          let kept' = rw c at kept in
          let next = Agrees-forget i d sorted s a in
          elim (Bool-cases (str_eq i k)) [
            | inl here ↦
                let same_key : i ≡ k = (eq_iff i k).0 here in
                let head : lookup i s.entries ≡ some d = Agrees-head i d sorted s a in
                let same : some d ≡ some e = sym head ∙ rw same_key found in
                let later : lookup j sorted ≡ some f =
                  next.1 j ∙ evict-keeps limit sorted (forget i d s) j f kept' in
                let order : d.accessed_at ≤ f.accessed_at =
                  All-lookup (NoEarlier (i, d)) j f sorted (λ _ h. h) least later in
                ground arith
            | inr there ↦
                evict-oldest limit sorted (forget i d s) k j e f next o
                  (forget-other i d s k there ∙ found) gone' kept'
          ]
    ]

-- When an eviction of a valid store removes an entry, no entry that it keeps was used earlier.
pub evict_if_needed-oldest :
    (s : Store) (k j : String) (e f : Entry)
    → IsValid s
    → lookup k s.entries ≡ some e
    → lookup k (evict_if_needed s).entries ≡ none
    → lookup j (evict_if_needed s).entries ≡ some f
    → (e.accessed_at ≤ f.accessed_at) × (lookup j s.entries ≡ some f)
unfolding evict_if_needed
evict_if_needed-oldest s k j e f v found gone kept =
    elim (Bool-cases (leb_ℤ (int64 s.total_size) (int64 s.max_size))) [
      | inl c ↦ let same : lookup k s.entries ≡ none = rw c at gone in absurd (cc)
      | inr c ↦
          let sorted = exchange_sort (length s.entries) s.entries in
          let gone' = rw c at gone in
          let kept' = rw c at kept in
          (
            evict-oldest (low_water s) sorted s k j e f (sorted-Agrees s v)
                (exchange_sort-Ordered (length s.entries) s.entries (omega arith)) found gone'
                kept',
            evict-keeps (low_water s) sorted s j f kept',
          )
    ]

-- The loop stops at the limit, or with an empty table.
evict-bound :
    (limit : ℤ) (sorted : List (String × Entry)) (s : Store)
    → Agrees sorted s
    → (leb_ℤ (int64 (evict limit sorted s).total_size) limit ≡ true)
      ⊎ ((k : String) → lookup k (evict limit sorted s).entries ≡ none)
unfolding evict lookup
evict-bound limit [] s a = inr (λ k. sym (a.1 k))
evict-bound limit ((k, e) ∷ sorted) s a = elim (Bool-cases (leb_ℤ (int64 s.total_size) limit)) [
  | inl c ↦ inl (rw c c)
  | inr c ↦ elim (evict-bound limit sorted (forget k e s) (Agrees-forget k e sorted s a)) [
    | inl h ↦ inl (rw c h)
    | inr h ↦ inr (rw c h)
  ]
]

-- A table in which nothing is found has size zero.
nothing : (m : List (String × Entry)) → ((k : String) → lookup k m ≡ none) → m ≡ []
unfolding lookup
nothing [] h = refl
nothing (x ∷ m) h = absurd (ground (arith, h x.0, eq_iff x.0 x.0))

low_water-pos : (s : Store) → s.max_size * 8 < half64 → low_water s ≡ pos (s.max_size * 8 / 10)
unfolding low_water quot_ℤ
low_water-pos s h = ground (arith, mod-eq_of_lt {n = s.max_size * 8} {m = word} (omega arith))

empty-total : (s : Store) → IsValid s → s.entries ≡ [] → s.total_size ≡ 0
unfolding total
empty-total s v e = v.sum ∙ ap (λ m. sizes m % word) e

below-low :
    (t m : ℕ)
    → leb_ℤ (int64 t) (pos (m * 8 / 10)) ≡ true
    → m * 8 < half64
    → leb_ℤ (int64 t) (int64 m) ≡ true
below-low t m e h = ground arith

zero-low : (t n : ℕ) → t ≡ 0 → leb_ℤ (int64 t) (pos n) ≡ true
zero-low t n e = ground arith

-- In a valid store the total size after an eviction is at most the maximum; where something had to go,
-- it is at most eight tenths of the maximum. (Eight times the maximum is an int64 number. A store is
-- valid when no key stands twice, each entry stands under its own key, and the total is the sum of the
-- sizes as an int64 number.)
pub evict_if_needed-bound :
    (s : Store)
    → IsValid s
    → s.max_size * 8 < half64
    → let t = evict_if_needed s in
      (leb_ℤ (int64 t.total_size) (int64 s.max_size) ≡ true)
      × ((t ≡ s) ⊎ (leb_ℤ (int64 t.total_size) (pos (s.max_size * 8 / 10)) ≡ true))
unfolding evict_if_needed
evict_if_needed-bound s v h = elim (Bool-cases (leb_ℤ (int64 s.total_size) (int64 s.max_size))) [
  | inl c ↦ rw c (c, inl refl)
  | inr c ↦
      let sorted = exchange_sort (length s.entries) s.entries in
      let low : leb_ℤ (int64 (evict (low_water s) sorted s).total_size) (pos (s.max_size * 8 / 10))
          ≡ true =
        elim (evict-bound (low_water s) sorted s (sorted-Agrees s v)) [
          | inl e ↦
              subst (λ x. leb_ℤ (int64 (evict (low_water s) sorted s).total_size) x ≡ true)
                (low_water-pos s h) e
          | inr e ↦ zero-low _ (s.max_size * 8 / 10) (
              empty-total (evict (low_water s) sorted s)
                (evict-IsValid (low_water s) sorted s v (sorted-Agrees s v)) (nothing _ e))
        ] in
      rw c (below-low (evict (low_water s) sorted s).total_size s.max_size low h, inr low)
]
