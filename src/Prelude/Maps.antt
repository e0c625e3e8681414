-- ===== src/Prelude/Maps.antt =====
-- Go's `map[string]V` as an association list. Its order stands for the order of one iteration over
-- the map, which Go leaves open: the theorems hold for every list, so for every order.
use Prim.Native.Nat.{ℕ, suc, ◌+◌}
use Prim.Native.String.{String}
use mathlib.Core.Path.{◌≡◌, refl}
use mathlib.Core.List.{List, [], ◌∷◌, map, Memᴰ}
use mathlib.Core.List.Memᴰ
use mathlib.Core.Option
use mathlib.Core.Option.{Option, none, some}
use native.Mathlib.Omega.{arith}
use text.Mathlib.Text.{◌==◌}
use text.Mathlib.TextEquality.{eq_iff}
use mathlib.Core.Logic.{inl, inr}
use mathlib.Core.Path.{subst}
use hybridgrid.Prelude.Tests.{if◌then◌else◌, Bool-cases}
use hybridgrid.Prelude.Lists.{length}

module _ {ℓ} {V : Type ℓ} where
  -- `table[key]` with its `ok`.
  unfoldable pub lookup : (key : String) (table : List (String × V)) → Option V
  lookup key [] = none
  lookup key (entry ∷ table) = if entry.0 == key then some entry.1 else lookup key table

  -- `table[key] = value`
  unfoldable pub insert : (key : String) (value : V) (table : List (String × V)) → List (String × V)
  insert key value [] = (key, value) ∷ []
  insert key value (entry ∷ table) =
      if entry.0 == key then (key, value) ∷ table else entry ∷ insert key value table

  -- `delete(m, k)`
  unfoldable pub erase : String → List (String × V) → List (String × V)
  erase k [] = []
  erase k ((j, w) ∷ m) = if j == k then erase k m else (j, w) ∷ erase k m

  abbrev pub values : List (String × V) → List V
  values = map (λ e. e.1)

  abbrev pub keys : List (String × V) → List String
  keys = map (λ e. e.0)

  -- No key stands twice.
  abbrev pub Distinct : List (String × V) → Type ℓ
  Distinct [] = Unit
  Distinct ((k, v) ∷ m) = (lookup k m ≡ none) × Distinct m

  -- A write is seen under its own key only.
  pub lookup-insert :
      (written read : String) (value : V) (table : List (String × V))
      → lookup read (insert written value table)
        ≡ (if written == read then some value else lookup read table)
  unfolding insert lookup
  lookup-insert written read value [] = refl
  lookup-insert written read value (entry ∷ table) = ground (
    arith,
    lookup-insert written read value table,
    eq_iff entry.0 read,
    eq_iff entry.0 written,
    eq_iff written read,
  )

  pub lookup-insert_self :
      (key : String) (value : V) (table : List (String × V))
      → lookup key (insert key value table) ≡ some value
  lookup-insert_self key value table =
      ground (arith, lookup-insert key key value table, eq_iff key key)

  pub lookup-erase :
      (k j : String) (m : List (String × V))
      → lookup j (erase k m) ≡ (if k == j then none else lookup j m)
  unfolding lookup erase
  lookup-erase k j [] = ground arith
  lookup-erase k j ((i, w) ∷ m) =
      ground (arith, eq_iff k j, eq_iff i k, eq_iff i j, lookup-erase k j m)

  pub erase-absent : (k : String) (m : List (String × V)) → lookup k m ≡ none → erase k m ≡ m
  unfolding lookup erase
  erase-absent k [] h = refl
  erase-absent k ((i, w) ∷ m) h = ground (arith, erase-absent k m)

  pub insert-Distinct :
      (k : String) (v : V) (m : List (String × V)) → Distinct m → Distinct (insert k v m)
  unfolding insert lookup
  insert-Distinct k v [] d = (refl, tt)
  insert-Distinct k v ((i, w) ∷ m) d =
      ground (arith, eq_iff i k, eq_iff k i, lookup-insert k i v m, insert-Distinct k v m d.1)

  pub erase-Distinct : (k : String) (m : List (String × V)) → Distinct m → Distinct (erase k m)
  unfolding erase
  erase-Distinct k [] d = tt
  erase-Distinct k ((i, w) ∷ m) d = ground (arith, lookup-erase k i m, erase-Distinct k m d.1)

  pub length-insert :
      (k : String) (v : V) (m : List (String × V))
      → length (insert k v m) ≡ elim (lookup k m) [ none ↦ suc (length m) | some _ ↦ length m ]
  unfolding lookup insert
  length-insert k v [] = refl
  length-insert k v ((i, w) ∷ m) = ground (arith, length-insert k v m)

  pub length-erase :
      (k : String) (v : V) (m : List (String × V))
      → Distinct m
      → lookup k m ≡ some v
      → suc (length (erase k m)) ≡ length m
  unfolding lookup erase
  length-erase k v [] d h = cc
  length-erase k v ((i, w) ∷ m) d h =
      ground (arith, eq_iff i k, erase-absent k m, length-erase k v m d.1)

  -- The total of a measure over the map.
  unfoldable pub total : (V → ℕ) → List (String × V) → ℕ
  total f [] = 0
  total f ((k, v) ∷ m) = f v + total f m

  abbrev pub share : (V → ℕ) → Option V → ℕ
  share f none = 0
  share f (some v) = f v

  pub total-insert :
      (f : V → ℕ) (k : String) (v : V) (m : List (String × V))
      → total f (insert k v m) + share f (lookup k m) ≡ total f m + f v
  unfolding total lookup insert
  total-insert f k v [] = omega arith
  total-insert f k v ((i, w) ∷ m) = ground (arith, total-insert f k v m)

  pub total-erase :
      (f : V → ℕ) (k : String) (m : List (String × V))
      → Distinct m
      → total f (erase k m) + share f (lookup k m) ≡ total f m
  unfolding total lookup erase
  total-erase f k [] d = omega arith
  total-erase f k ((i, w) ∷ m) d =
      ground (arith, eq_iff i k, erase-absent k m, total-erase f k m d.1)

module _ {ℓ} {V : Type ℓ} where
  -- What is found under a key is a value of the map, and each value is found under its key.
  pub lookup-mem :
      (k : String) (v : V) (m : List (String × V)) → lookup k m ≡ some v → Memᴰ v (values m)
  unfolding lookup
  lookup-mem k v [] h = cc
  lookup-mem k v ((i, w) ∷ m) h = elim (Bool-cases (i == k)) [
    | inl c ↦ Memᴰ.head (ground arith)
    | inr c ↦ Memᴰ.tail (lookup-mem k v m (ground arith))
  ]

  pub mem-lookup :
      (v : V) (m : List (String × V))
      → Distinct m
      → Memᴰ v (values m)
      → (k : String) × (lookup k m ≡ some v)
  unfolding lookup
  mem-lookup v [] d h = absurd (Memᴰ.not-nil h)
  mem-lookup v ((i, w) ∷ m) d h = elim (Memᴰ.cases_cons h) [
    | inl same ↦ (i, ground (arith, eq_iff i i))
    | inr later ↦ let (k, e) = mem-lookup v m d.1 later in (k, ground (arith, eq_iff i k, d.0))
  ]

module _ {ℓ κ} {V : Type ℓ} {W : Type κ} where
  -- A change of every value in place.
  unfoldable pub map_values : (V → W) → List (String × V) → List (String × W)
  map_values f [] = []
  map_values f ((k, v) ∷ m) = (k, f v) ∷ map_values f m

  pub lookup-map_values :
      (f : V → W) (k : String) (m : List (String × V))
      → lookup k (map_values f m) ≡ Option.map f (lookup k m)
  unfolding lookup map_values
  lookup-map_values f k [] = refl
  lookup-map_values f k ((i, w) ∷ m) = ground (arith, lookup-map_values f k m)

  pub map_values-Distinct :
      (f : V → W) (m : List (String × V)) → Distinct m → Distinct (map_values f m)
  unfolding map_values
  map_values-Distinct f [] d = tt
  map_values-Distinct f ((i, w) ∷ m) d =
      (rw (lookup-map_values f i m, d.0), map_values-Distinct f m d.1)

  pub length-map_values : (f : V → W) (m : List (String × V)) → length (map_values f m) ≡ length m
  unfolding map_values
  length-map_values f [] = refl
  length-map_values f ((k, v) ∷ m) = omega (arith, length-map_values f m)

module _ {ℓ κ} {V : Type ℓ} (P : String → V → Type κ) where
  -- A property of all entries.
  abbrev pub Entries : List (String × V) → Type κ
  Entries [] = Unit
  Entries ((k, v) ∷ m) = P k v × Entries m

  pub Entries-insert :
      (k : String) (v : V) (m : List (String × V)) → Entries m → P k v → Entries (insert k v m)
  unfolding insert
  Entries-insert k v [] h p = (p, tt)
  Entries-insert k v ((i, w) ∷ m) h p = elim (Bool-cases (i == k)) [
    | inl e ↦ rw e (p, h.1)
    | inr e ↦ rw e (h.0, Entries-insert k v m h.1 p)
  ]

  pub Entries-erase : (k : String) (m : List (String × V)) → Entries m → Entries (erase k m)
  unfolding erase
  Entries-erase k [] h = tt
  Entries-erase k ((i, w) ∷ m) h = elim (Bool-cases (i == k)) [
    | inl e ↦ rw e (Entries-erase k m h.1)
    | inr e ↦ rw e (h.0, Entries-erase k m h.1)
  ]

  pub Entries-lookup :
      (k : String) (v : V) (m : List (String × V)) → Entries m → lookup k m ≡ some v → P k v
  unfolding lookup
  Entries-lookup k v [] h e = cc
  Entries-lookup k v ((i, w) ∷ m) h e = elim (Bool-cases (i == k)) [
    | inl c ↦
        let same_key : i ≡ k = (eq_iff i k).0 c in
        let same : w ≡ v = ground arith in subst (P k) same (subst (λ j. P j w) same_key h.0)
    | inr c ↦ let rest : lookup k m ≡ some v = ground arith in Entries-lookup k v m h.1 rest
  ]

module _ {ℓ κ ι} {V : Type ℓ} (P : String → V → Type κ) (Q : String → V → Type ι) where
  pub Entries-mono :
      (m : List (String × V)) → ((k : String) (v : V) → P k v → Q k v) → Entries P m → Entries Q m
  Entries-mono [] f h = tt
  Entries-mono ((k, v) ∷ m) f h = (f k v h.0, Entries-mono m f h.1)

  pub Entries-map_values :
      (g : V → V) (m : List (String × V))
      → ((k : String) (v : V) → P k v → Q k (g v))
      → Entries P m
      → Entries Q (map_values g m)
  unfolding map_values
  Entries-map_values g [] f h = tt
  Entries-map_values g ((k, v) ∷ m) f h = (f k v h.0, Entries-map_values g m f h.1)
