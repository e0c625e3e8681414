-- ===== src/Prelude/Text.antt =====
-- Go's strings as lists of numbers: code points, or bytes.
use Prim.Native.Char.{code}
use Prim.Native.String.{String}
use Prim.Native.Nat.{ℕ, zero, suc}
use mathlib.Core.Path.{◌≡◌}
use mathlib.Core.Bool.{Bool, true, false, ◌&&◌, ◌||◌}
use mathlib.Core.List.{List, [], ◌∷◌, ◌++◌}
use mathlib.Core.Logic.{◌↔◌}
use native.Mathlib.Omega.{arith}
use hybridgrid.Prelude.Tests.{if◌then◌else◌, ◌==◌}

abbrev pub points : String → List ℕ
points String.[] = []
points (String.◌∷◌ c s) = code c ∷ points s

unfoldable pub same_points : List ℕ → List ℕ → Bool
same_points [] [] = true
same_points [] (d ∷ ds) = false
same_points (c ∷ cs) [] = false
same_points (c ∷ cs) (d ∷ ds) = (c == d) && same_points cs ds

-- `strings.HasPrefix(text, prefix)`
unfoldable pub has_prefix : (text prefix : List ℕ) → Bool
has_prefix text [] = true
has_prefix [] (p ∷ ps) = false
has_prefix (c ∷ cs) (p ∷ ps) = (c == p) && has_prefix cs ps

unfoldable pub any {ℓ} : {A : Type ℓ} → (A → Bool) → List A → Bool
any p [] = false
any p (x ∷ xs) = p x || any p xs

-- `strings.Contains(text, part)`
unfoldable pub has_part : (text part : List ℕ) → Bool
unfolding has_prefix
has_part [] part = has_prefix [] part
has_part (c ∷ cs) part = has_prefix (c ∷ cs) part || has_part cs part

-- The text from place `n` on.
unfoldable pub from : ℕ → List ℕ → List ℕ
from zero text = text
from (suc n) [] = []
from (suc n) (c ∷ cs) = from n cs

-- The parts of a text between the separators: the part that is read, reversed, comes first.
unfoldable pub split_from : ℕ → List ℕ → List ℕ → List (List ℕ)
split_from sep part [] = part ∷ []
split_from sep part (c ∷ cs) =
    let rest = split_from sep [] cs in
    let more = split_from sep (part ++ c ∷ []) cs in if c == sep then part ∷ rest else more

-- `strings.Split(text, sep)` with a separator of one character.
unfoldable pub split : ℕ → List ℕ → List (List ℕ)
unfolding split_from
split sep text = split_from sep [] text

pub same_points_iff : (s t : List ℕ) → (same_points s t ≡ true) ↔ (s ≡ t)
unfolding same_points
same_points_iff [] [] = ground arith
same_points_iff [] (d ∷ t) = ground arith
same_points_iff (c ∷ s) [] = ground arith
same_points_iff (c ∷ s) (d ∷ t) = ground (arith, same_points_iff s t)
