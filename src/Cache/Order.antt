-- ===== src/Cache/Order.antt =====
-- The sort that `evictIfNeeded` of internal/cache/store.go does by exchanging: it keeps the table and
-- puts the entries in the order of their last use.
use hybridgrid.Prelude.{
  ℕ, zero, suc, ◌≤◌, String, ◌≡◌, refl, ◌∙◌, ap, true, false, List, [], ◌∷◌, length, arith, All,
  inl, inr, Bool-cases, eq_iff,
}
use hybridgrid.Prelude.Maps.{lookup, Distinct}
use hybridgrid.Cache.Store.{Entry, after, sweep, exchange_sort}

-- Two lists of entries are the same table.
abbrev pub SameTable : List (String × Entry) → List (String × Entry) → Type 0
SameTable xs ys = Distinct xs → Distinct ys × ((k : String) → lookup k ys ≡ lookup k xs)

SameTable-trans :
    (xs ys zs : List (String × Entry)) → SameTable xs ys → SameTable ys zs → SameTable xs zs
SameTable-trans xs ys zs h k d = let (dy, ey) = h d in let (dz, ez) = k dy in (dz, λ j. ez j ∙ ey j)

SameTable-cons :
    (x : String × Entry) (xs ys : List (String × Entry))
    → SameTable xs ys
    → SameTable (x ∷ xs) (x ∷ ys)
unfolding lookup
SameTable-cons x xs ys h (new, d) =
    let (dy, ey) = h d in ((ey x.0 ∙ new, dy), λ j. ground (arith, ey j))

SameTable-swap :
    (x y : String × Entry) (xs : List (String × Entry)) → SameTable (x ∷ y ∷ xs) (y ∷ x ∷ xs)
unfolding lookup
SameTable-swap x y xs d = (
  ground (arith, eq_iff x.0 y.0, eq_iff y.0 x.0),
  λ j. ground (arith, eq_iff x.0 j, eq_iff y.0 j, eq_iff y.0 x.0),
)

SameTable-refl : (xs : List (String × Entry)) → SameTable xs xs
SameTable-refl xs d = (d, λ k. refl)

sweep-SameTable :
    (x : String × Entry) (ys : List (String × Entry))
    → SameTable (x ∷ ys) ((sweep x ys).0 ∷ (sweep x ys).1)
unfolding sweep
sweep-SameTable x [] = SameTable-refl (x ∷ [])
sweep-SameTable x (y ∷ ys) = elim (Bool-cases (after x y)) [
  | inl e ↦ rw e (λ d.
      SameTable-trans (x ∷ y ∷ ys) (x ∷ (sweep y ys).0 ∷ (sweep y ys).1) _
        (SameTable-cons x (y ∷ ys) _ (sweep-SameTable y ys))
        (SameTable-swap x (sweep y ys).0 (sweep y ys).1) d)
  | inr e ↦ rw e (λ d.
      SameTable-trans (x ∷ y ∷ ys) (y ∷ x ∷ ys) _ (SameTable-swap x y ys)
        (SameTable-trans (y ∷ x ∷ ys) (y ∷ (sweep x ys).0 ∷ (sweep x ys).1) _
          (SameTable-cons y (x ∷ ys) _ (sweep-SameTable x ys))
          (SameTable-swap y (sweep x ys).0 (sweep x ys).1))
        d)
]

-- The sort keeps the table, whatever the number of rounds.
pub exchange_sort-SameTable :
    (n : ℕ) (xs : List (String × Entry)) → SameTable xs (exchange_sort n xs)
unfolding exchange_sort
exchange_sort-SameTable zero xs = SameTable-refl xs
exchange_sort-SameTable (suc n) [] = SameTable-refl []
exchange_sort-SameTable (suc n) (x ∷ xs) =
    let (least, rest) = sweep x xs in
    SameTable-trans (x ∷ xs) ((sweep x xs).0 ∷ (sweep x xs).1) _ (sweep-SameTable x xs)
      (SameTable-cons (sweep x xs).0 (sweep x xs).1 _ (exchange_sort-SameTable n (sweep x xs).1))

-- `y` was used no earlier than `x`.
abbrev pub NoEarlier : (String × Entry) → (String × Entry) → Type 0
NoEarlier x y = x.1.accessed_at ≤ y.1.accessed_at

abbrev pub Ordered : List (String × Entry) → Type 0
Ordered [] = Unit
Ordered (x ∷ xs) = All (NoEarlier x) xs × Ordered xs

All-sweep :
    (P : String × Entry → Type 0) (x : String × Entry) (ys : List (String × Entry))
    → P x
    → All P ys
    → P (sweep x ys).0 × All P (sweep x ys).1
unfolding sweep
All-sweep P x [] p h = (p, tt)
All-sweep P x (y ∷ ys) p (q, h) = elim (Bool-cases (after x y)) [
  | inl e ↦ let (l, r) = All-sweep P y ys q h in rw e (l, (p, r))
  | inr e ↦ let (l, r) = All-sweep P x ys p h in rw e (l, (q, r))
]

All-exchange_sort :
    (P : String × Entry → Type 0) (n : ℕ) (xs : List (String × Entry))
    → All P xs
    → All P (exchange_sort n xs)
unfolding exchange_sort
All-exchange_sort P zero xs h = h
All-exchange_sort P (suc n) [] h = tt
All-exchange_sort P (suc n) (x ∷ xs) (p, h) =
    let (l, r) = All-sweep P x xs p h in (l, All-exchange_sort P n (sweep x xs).1 r)

length-sweep : (x : String × Entry) (ys : List (String × Entry)) → length (sweep x ys).1 ≡ length ys
unfolding sweep
length-sweep x [] = refl
length-sweep x (y ∷ ys) = elim (Bool-cases (after x y)) [
  | inl e ↦ rw e (ap suc (length-sweep y ys))
  | inr e ↦ rw e (ap suc (length-sweep x ys))
]

sweep-nil : (x : String × Entry) → sweep x [] ≡ (x, [])
unfolding sweep
sweep-nil x = refl

sweep-later :
    (x y : String × Entry) (ys : List (String × Entry))
    → after x y ≡ true
    → sweep x (y ∷ ys) ≡ ((sweep y ys).0, x ∷ (sweep y ys).1)
unfolding sweep
sweep-later x y ys e = rw e

sweep-stays :
    (x y : String × Entry) (ys : List (String × Entry))
    → after x y ≡ false
    → sweep x (y ∷ ys) ≡ ((sweep x ys).0, y ∷ (sweep x ys).1)
unfolding sweep
sweep-stays x y ys e = rw e

-- What a sweep leaves in front is the least.
sweep-least :
    (x : String × Entry) (ys : List (String × Entry))
    → NoEarlier (sweep x ys).0 x × All (NoEarlier (sweep x ys).0) (sweep x ys).1
sweep-least x [] = rw (sweep-nil x) (omega arith, tt)
sweep-least x (y ∷ ys) = elim (Bool-cases (after x y)) [
  | inl e ↦
      let (l, r) = sweep-least y ys in
      let below : (sweep y ys).0.1.accessed_at ≤ x.1.accessed_at = ground arith in
      rw (sweep-later x y ys e) (below, (below, r))
  | inr e ↦
      let (l, r) = sweep-least x ys in
      let below : (sweep x ys).0.1.accessed_at ≤ y.1.accessed_at = ground arith in
      rw (sweep-stays x y ys e) (l, (below, r))
]

-- As many rounds as entries put them in order.
pub exchange_sort-Ordered :
    (n : ℕ) (xs : List (String × Entry)) → length xs ≤ n → Ordered (exchange_sort n xs)
unfolding exchange_sort
exchange_sort-Ordered zero [] h = tt
exchange_sort-Ordered zero (x ∷ xs) h = absurd (omega arith)
exchange_sort-Ordered (suc n) [] h = tt
exchange_sort-Ordered (suc n) (x ∷ xs) h =
    let fits : length (sweep x xs).1 ≤ n = omega (arith, length-sweep x xs) in
    (
      All-exchange_sort (NoEarlier (sweep x xs).0) n (sweep x xs).1 (sweep-least x xs).1,
      exchange_sort-Ordered n (sweep x xs).1 fits,
    )
