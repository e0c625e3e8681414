-- ===== src/Metrics/Ewma.antt =====
-- `EWMA` of internal/coordinator/metrics/ewma.go, over any float64. Each method holds the mutex, so it
-- is one step.
use hybridgrid.Prelude.{Bool, true, false, ◌||◌, if◌then◌else◌}
use hybridgrid.Prelude.Int.{pos}
use hybridgrid.Prelude.Float.{Float}

pub record Ewma (F : Float) : Type 0 where
  pub alpha : F.Carrier
  pub value : F.Carrier
  pub init : Bool

module _ (F : Float) where
  open F use {Carrier, lit, add, sub, mul, lt, le}

  unfoldable pub new_ewma : Carrier → Ewma F
  new_ewma alpha = record {
    alpha = if le alpha (lit (pos 0) 1) || lt (lit (pos 1) 1) alpha then lit (pos 1) 2 else alpha;
    value = lit (pos 0) 1;
    init = false;
  }

  -- `alpha*value + (1-alpha)*old`
  unfoldable pub blend : Carrier → Carrier → Carrier → Carrier
  blend alpha value old = add (mul alpha value) (mul (sub (lit (pos 1) 1) alpha) old)

  unfoldable pub update : Carrier → Ewma F → Ewma F
  unfolding blend
  update value e =
      if e.init
      then record e { value = blend e.alpha value e.value }
      else record e { value = value; init = true }

  unfoldable pub reset : Ewma F → Ewma F
  reset e = record e { value = lit (pos 0) 1; init = false }
