-- ===== src/Scheduler/EpsilonGreedy.antt =====
-- `EpsilonGreedyScheduler` of internal/coordinator/scheduler/epsilon_greedy.go.
pub mod Laws
use hybridgrid.Prelude.{
  ℕ, ◌+◌, ◌/◌, String, str_eq, Bool, true, false, ◌||◌, ◌&&◌, Option, none, some, List, [], ◌∷◌,
  if◌then◌else◌, length, get_elem?,
}
use hybridgrid.Prelude.Int.{ℤ, pos, wrap64, ◌+ℤ◌}
use hybridgrid.Prelude.Float.{Float}
use hybridgrid.Prelude.Maps.{lookup, insert}
use hybridgrid.Registry.Types.{Architecture, BuildType, WorkerInfo}
use hybridgrid.Scheduler.Eligible.{
  RegistryView, Selection, selected, panics, ◌>>=◌, eligible_workers,
}
use hybridgrid.Scheduler.P2c.{crypto_rand_int}

pub record ArmState (F : Float) : Type 0 where
  pub q : F.Carrier
  pub n : ℤ

-- `DispatchInfo` of feedback.go.
pub record DispatchInfo (F : Float) : Type 0 where
  pub q_value_at_dispatch : F.Carrier
  pub was_exploration : Bool

pub record EpsilonGreedyScheduler (F : Float) : Type 0 where
  pub circuit_checker : Option (String → Bool)
  pub epsilon : F.Carrier
  pub values : List (String × ArmState F)

-- The randomness of one selection: eight bytes as a big-endian number for `uniformFloat` (`none` if
-- crypto/rand fails), and a call of `rand.Int`.
pub record Coins : Type 0 where
  pub bytes : Option ℕ
  pub index : ℕ → Option ℕ

module _ (F : Float) where
  open F use {Carrier, lit, of_int, add, sub, div, lt, neg_inf, is_nan, is_inf}

  unfoldable pub new_epsilon_greedy_scheduler :
      Option (String → Bool) → Carrier → EpsilonGreedyScheduler F
  new_epsilon_greedy_scheduler checker epsilon =
      let low = if lt epsilon (lit (pos 0) 1) then lit (pos 0) 1 else epsilon in
      record {
        circuit_checker = checker;
        epsilon = if lt (lit (pos 1) 1) low then lit (pos 1) 1 else low;
        values = [];
      }

  -- The top 53 of the 64 bits, over 2^53.
  unfoldable pub uniform_float : Option ℕ → Carrier
  uniform_float none = lit (pos 0) 1
  uniform_float (some b) = div (of_int (pos (b / 2048))) (lit (pos 9007199254740992) 1)

  unfoldable pub q_value : EpsilonGreedyScheduler F → String → Carrier
  q_value s id = elim (lookup id s.values) [ none ↦ lit (pos 0) 1 | some st ↦ st.q ]

  -- The loop of `argmaxQ`, from the best worker so far.
  unfoldable pub argmax_from :
      EpsilonGreedyScheduler F → Option WorkerInfo → Carrier → List WorkerInfo → Option WorkerInfo
  argmax_from s best best_q [] = best
  argmax_from s best best_q (w ∷ ws) =
      let q = q_value s w.id in
      argmax_from s (if lt best_q q then some w else best) (if lt best_q q then q else best_q) ws

  unfoldable pub argmax_q : EpsilonGreedyScheduler F → List WorkerInfo → Option WorkerInfo
  unfolding argmax_from q_value
  argmax_q s ws = argmax_from s none neg_inf ws

  unfoldable pub is_exploring : EpsilonGreedyScheduler F → Coins → Bool
  unfolding uniform_float
  is_exploring s c = lt (lit (pos 0) 1) s.epsilon && lt (uniform_float c.bytes) s.epsilon

  -- The worker, or `none` where Go would use a nil pointer or an index out of range.
  unfoldable pub pick : EpsilonGreedyScheduler F → Coins → List WorkerInfo → Option WorkerInfo
  unfolding argmax_q
  pick s c cs =
      if is_exploring s c then get_elem? cs (crypto_rand_int c.index (length cs)) else argmax_q s cs

  unfoldable pub dispatch :
      EpsilonGreedyScheduler F → Bool → Option WorkerInfo → Selection (WorkerInfo × DispatchInfo F)
  dispatch s exploring none = panics
  dispatch s exploring (some w) =
      selected (w, record { q_value_at_dispatch = q_value s w.id; was_exploration = exploring })

  unfoldable pub choose :
      EpsilonGreedyScheduler F → Coins → List WorkerInfo → Selection (WorkerInfo × DispatchInfo F)
  unfolding dispatch
  choose s c (w ∷ []) = dispatch s false (some w)
  choose s c [] = dispatch s (is_exploring s c) (pick s c [])
  choose s c (w ∷ x ∷ cs) = dispatch s (is_exploring s c) (pick s c (w ∷ x ∷ cs))

  unfoldable pub select_with_dispatch_info :
      EpsilonGreedyScheduler F
      → Coins
      → RegistryView
      → BuildType
      → Architecture
      → String
      → Selection (WorkerInfo × DispatchInfo F)
  select_with_dispatch_info s c reg build_type arch client_os = do
    cs ← eligible_workers s.circuit_checker reg build_type arch client_os
    choose s c cs

  unfoldable pub select :
      EpsilonGreedyScheduler F
      → Coins
      → RegistryView
      → BuildType
      → Architecture
      → String
      → Selection WorkerInfo
  select s c reg build_type arch client_os = do
    (w, info) ← select_with_dispatch_info s c reg build_type arch client_os
    selected w

  -- `Q_{n+1} = Q_n + (R_n - Q_n) / n`
  unfoldable pub learn : Carrier → ArmState F → ArmState F
  learn reward st =
      let n = wrap64 (st.n +ℤ pos 1) in
      record { q = add st.q (div (sub reward st.q) (of_int n)); n = n }

  unfoldable pub new_arm : Option (ArmState F) → ArmState F
  new_arm none = record { q = lit (pos 0) 1; n = pos 0 }
  new_arm (some st) = st

  unfoldable pub record_outcome :
      String → Carrier → EpsilonGreedyScheduler F → EpsilonGreedyScheduler F
  unfolding learn new_arm
  record_outcome id reward s =
      if str_eq id "" || (is_nan reward || is_inf reward)
      then s
      else record s { values = insert id (learn reward (new_arm (lookup id s.values))) s.values }
