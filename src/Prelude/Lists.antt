-- ===== src/Prelude/Lists.antt =====
-- Lists measured by native numbers, filtered by Boolean tests, and predicates on their members.
use Prim.Native.Nat.{ℕ, zero, suc, ◌+◌, ◌≤◌, ◌<◌}
use mathlib.Core.Path.{◌≡◌, refl}
use mathlib.Core.Bool.{Bool, true, false}
use mathlib.Core.List.{List, [], ◌∷◌, ◌++◌, Memᴰ}
use mathlib.Core.Option.{Option, none, some}
use native.Mathlib.Omega.{arith}
use mathlib.Core.List.Memᴰ
use mathlib.Core.Logic.{◌↔◌, inl, inr}
use hybridgrid.Prelude.Tests.{if◌then◌else◌, if_both, Bool-cases}

module _ {ℓ} {A : Type ℓ} where
  abbrev pub length : List A → ℕ
  length [] = 0
  length (x ∷ xs) = suc (length xs)

  abbrev pub get_elem? : List A → ℕ → Option A
  get_elem? [] i = none
  get_elem? (x ∷ xs) zero = some x
  get_elem? (x ∷ xs) (suc i) = get_elem? xs i

  -- The elements that pass a Boolean test, in order.
  unfoldable pub keep : (A → Bool) → List A → List A
  keep p [] = []
  keep p (x ∷ xs) = if p x then x ∷ keep p xs else keep p xs

  abbrev pub is_empty : List A → Bool
  is_empty [] = true
  is_empty (x ∷ xs) = false

  pub length-append : (xs ys : List A) → length (xs ++ ys) ≡ length xs + length ys
  length-append [] ys = omega arith
  length-append (x ∷ xs) ys = omega (arith, length-append xs ys)

  pub length-keep-le : (p : A → Bool) (xs : List A) → length (keep p xs) ≤ length xs
  unfolding keep
  length-keep-le p [] = omega arith
  length-keep-le p (x ∷ xs) = ground (arith, length-keep-le p xs)

  -- An index below the length reads an element of the list.
  pub get_elem?-mem :
      (xs : List A) (i : ℕ) → i < length xs → (x : A) × (get_elem? xs i ≡ some x) × Memᴰ x xs
  get_elem?-mem [] i h = elim h [ ]
  get_elem?-mem (x ∷ xs) zero h = (x, refl, Memᴰ.head refl)
  get_elem?-mem (x ∷ xs) (suc i) h =
      let (y, e, m) = get_elem?-mem xs i (omega arith) in (y, e, Memᴰ.tail m)

module _ {ℓ} {A : Type ℓ} (p : A → Bool) {x : A} where
  of_mem-keep : (xs : List A) → Memᴰ x (keep p xs) → Memᴰ x xs × (p x ≡ true)
  unfolding keep
  of_mem-keep [] m = absurd (Memᴰ.not-nil m)
  of_mem-keep (y ∷ ys) m = elim (Bool-cases (p y)) [
    | inl e ↦ elim (Memᴰ.cases_cons {l = keep p ys} (rw e at m)) [
      | inl same ↦ (Memᴰ.head same, rw same e)
      | inr later ↦ let (n, h) = of_mem-keep ys later in (Memᴰ.tail n, h)
    ]
    | inr e ↦ let (n, h) = of_mem-keep ys (rw e at m) in (Memᴰ.tail n, h)
  ]

  to_mem-keep : (xs : List A) → Memᴰ x xs → p x ≡ true → Memᴰ x (keep p xs)
  unfolding keep
  to_mem-keep [] m h = absurd (Memᴰ.not-nil m)
  to_mem-keep (y ∷ ys) m h = elim (Memᴰ.cases_cons m) [
    | inl same ↦ let e : p y ≡ true = rw (← same) h in rw e (Memᴰ.head same)
    | inr later ↦
        if_both (Memᴰ x) (p y) _ _ (Memᴰ.tail (to_mem-keep ys later h)) (to_mem-keep ys later h)
  ]

  -- Exactly the members that pass the test are kept.
  pub mem-keep : (xs : List A) → Memᴰ x (keep p xs) ↔ (Memᴰ x xs × (p x ≡ true))
  mem-keep xs = (of_mem-keep xs, λ h. to_mem-keep xs h.0 h.1)

abbrev pub All {ℓ κ} : {A : Type ℓ} → (A → Type κ) → List A → Type κ
All P [] = Unit
All P (x ∷ xs) = P x × All P xs

module _ {ℓ κ} {A : Type ℓ} (P : A → Type κ) where
  pub All-append : (xs ys : List A) → All P xs → All P ys → All P (xs ++ ys)
  All-append [] ys hx hy = hy
  All-append (x ∷ xs) ys hx hy = (hx.0, All-append xs ys hx.1 hy)

  pub All-get_elem? : (xs : List A) (i : ℕ) (x : A) → All P xs → get_elem? xs i ≡ some x → P x
  All-get_elem? [] i x h e = cc
  All-get_elem? (y ∷ xs) zero x h e = ground (arith, h.0)
  All-get_elem? (y ∷ xs) (suc i) x h e = All-get_elem? xs i x h.1 e

-- What holds of the head and of every member of the tail holds of every member.
pub for_members {ℓ κ} :
    {A : Type ℓ} (P : A → Type κ) (y : A) (ys : List A)
    → P y
    → ((x : A) → Memᴰ x ys → P x)
    → (x : A) → Memᴰ x (y ∷ ys)
    → P x
for_members P y ys h rest x m = elim (Memᴰ.cases_cons m) [
  | inl e ↦ rw e h
  | inr later ↦ rest x later
]
