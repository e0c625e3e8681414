-- ===== src/Coordinator/Jobs/Count.antt =====
-- The handlers that are in flight, and how many of them are at which point.
use hybridgrid.Prelude.{
  ℕ, zero, suc, ◌+◌, String, str_eq, ◌≡◌, some, List, [], ◌∷◌, get_elem?, arith, if◌then◌else◌,
}
use hybridgrid.Registry.Types.{WorkerInfo}
use hybridgrid.Coordinator.Messages.{CompileRequest, BuildRequest}
use hybridgrid.Coordinator.Server.{Kind}

pub data Work : Type 0 where
  compiles : CompileRequest → Work
  builds : Kind → String → BuildRequest → Work

-- A handler before the choice of a worker, with a worker that it has not booked yet, during the call of
-- the worker, and with its reply counted but the deferred calls to come.
pub data Job : Type 0 where
  waiting : Work → Job
  chosen running : Work → WorkerInfo → Job
  closing : String → Job

module _ {ℓ} {A : Type ℓ} where
  unfoldable pub put : ℕ → A → List A → List A
  put i y [] = []
  put zero y (x ∷ xs) = y ∷ xs
  put (suc i) y (x ∷ xs) = x ∷ put i y xs

  unfoldable pub drop_at : ℕ → List A → List A
  drop_at i [] = []
  drop_at zero (x ∷ xs) = xs
  drop_at (suc i) (x ∷ xs) = x ∷ drop_at i xs

  unfoldable pub tally : (A → ℕ) → List A → ℕ
  tally f [] = 0
  tally f (x ∷ xs) = f x + tally f xs

  pub tally-put :
      (f : A → ℕ) (i : ℕ) (x y : A) (xs : List A)
      → get_elem? xs i ≡ some x
      → tally f (put i y xs) + f x ≡ tally f xs + f y
  unfolding tally put
  tally-put f i x y [] h = cc
  tally-put f zero x y (z ∷ xs) h = ground arith
  tally-put f (suc i) x y (z ∷ xs) h = omega (arith, tally-put f i x y xs h)

  pub tally-drop_at :
      (f : A → ℕ) (i : ℕ) (x : A) (xs : List A)
      → get_elem? xs i ≡ some x
      → tally f (drop_at i xs) + f x ≡ tally f xs
  unfolding tally drop_at
  tally-drop_at f i x [] h = cc
  tally-drop_at f zero x (z ∷ xs) h = ground arith
  tally-drop_at f (suc i) x (z ∷ xs) h = omega (arith, tally-drop_at f i x xs h)

-- What each job counts for: as queued, as active, as not yet counted by its outcome, and as active
-- on one worker, as running on it, and as chosen for it.
unfoldable pub one : Job → ℕ
one j = 1

unfoldable pub is_active : Job → ℕ
is_active (waiting w) = 0
is_active (chosen w x) = 0
is_active (running w x) = 1
is_active (closing id) = 1

unfoldable pub is_running : Job → ℕ
is_running (waiting w) = 0
is_running (chosen w x) = 0
is_running (running w x) = 1
is_running (closing id) = 0

unfoldable pub is_active_on : String → Job → ℕ
is_active_on id (waiting w) = 0
is_active_on id (chosen w x) = 0
is_active_on id (running w x) = if str_eq x.id id then 1 else 0
is_active_on id (closing j) = if str_eq j id then 1 else 0

unfoldable pub is_running_on : String → Job → ℕ
is_running_on id (waiting w) = 0
is_running_on id (chosen w x) = 0
is_running_on id (running w x) = if str_eq x.id id then 1 else 0
is_running_on id (closing j) = 0

unfoldable pub is_chosen_on : String → Job → ℕ
is_chosen_on id (waiting w) = 0
is_chosen_on id (chosen w x) = if str_eq x.id id then 1 else 0
is_chosen_on id (running w x) = 0
is_chosen_on id (closing j) = 0
