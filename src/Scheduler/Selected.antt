-- ===== src/Scheduler/Selected.antt =====
-- Whatever state a scheduler of internal/coordinator/scheduler is in, the worker that it selects is
-- listed for the build and fits the client's system.
use hybridgrid.Prelude.{
  if_both, ℕ, zero, suc, ◌+◌, ◌-◌, ◌*◌, ◌%◌, String, ◌≡◌, sym, subst, Bool, false, Option, none,
  some, List, [], ◌∷◌, ◌⊎◌, inl, inr, Memᴰ, get_elem?, length, ltb, ◌==◌, if◌then◌else◌,
}
use hybridgrid.Prelude.Int.{half64}
use hybridgrid.Prelude.Float.{Float}
use hybridgrid.Registry.Types.{Architecture, BuildType, WorkerInfo}
use hybridgrid.Scheduler.Eligible.{RegistryView, Selection, selected, fails, panics, ◌>>=◌}
use hybridgrid.Scheduler.Admission.{Matches, Selection-cases, eligible_workers-mem}
use hybridgrid.Scheduler.Eligible.{eligible_workers}
use hybridgrid.Scheduler.Simple
use hybridgrid.Scheduler.Simple.{pick, offered, round_robin}
use hybridgrid.Scheduler.Simple.Laws.{offered_lem}
use hybridgrid.Scheduler.EpsilonGreedy
use hybridgrid.Scheduler.EpsilonGreedy.{
  EpsilonGreedyScheduler, Coins, argmax_from, argmax_q, dispatch, choose, DispatchInfo,
}
use hybridgrid.Scheduler.Heft
use hybridgrid.Scheduler.Heft.{HeftScheduler}
use hybridgrid.Scheduler.Heft.Laws.{select_earliest}

get_elem?-some : {A : Type 0} (xs : List A) (i : ℕ) (x : A) → get_elem? xs i ≡ some x → Memᴰ x xs
get_elem?-some [] i x h = absurd cc
get_elem?-some (y ∷ xs) zero x h = Memᴰ.head (cc)
get_elem?-some (y ∷ xs) (suc i) x h = Memᴰ.tail (get_elem?-some xs i x h)

picked :
    (o : Option WorkerInfo) (w : WorkerInfo)
    → (elim o as (λ _. Selection WorkerInfo) [ some x ↦ selected x | none ↦ panics ]) ≡ selected w
    → o ≡ some w
picked none w h = absurd cc
picked (some x) w h = cc

pick-mem : (idx : ℕ) (cs : List WorkerInfo) (w : WorkerInfo) → pick idx cs ≡ selected w → Memᴰ w cs
unfolding pick
pick-mem idx cs w h =
    if_both (λ o. o ≡ some w → Memᴰ w cs) (ltb idx half64) _ _
      (get_elem?-some cs (idx % length cs) w)
      (if_both (λ o. o ≡ some w → Memᴰ w cs) ((2 * half64 - idx) % length cs == 0) _ _
        (get_elem?-some cs 0 w) (λ e. absurd (cc)))
      (picked _ w h)

module _ (reg : RegistryView) (b : BuildType) (a : Architecture) (os : String) where
  pub round_robin-Matches :
      (counter : ℕ) (w : WorkerInfo)
      → (Simple.select reg b a os counter).1 ≡ selected w
      → Matches reg b a os w
  unfolding Simple.select round_robin
  round_robin-Matches counter w h = elim (offered_lem reg b a os counter) [
    | inr (e, f, nobody) ↦
        let failed : (round_robin counter (fails e)).1 ≡ selected w =
          subst (λ o. (round_robin counter o).1 ≡ selected w) f h in
        absurd cc
    | inl (cs, f, some_worker, suits) ↦
        let from_cs : (round_robin counter (selected cs)).1 ≡ selected w =
          subst (λ o. (round_robin counter o).1 ≡ selected w) f h in
        (suits w (pick-mem ((counter + 1) % (2 * half64)) cs w from_cs)).0.0
  ]

module _ (F : Float) where
  argmax_from-mem :
      (s : EpsilonGreedyScheduler F) (best : Option WorkerInfo) (q : F.Carrier)
      (cs : List WorkerInfo) (w : WorkerInfo)
      → argmax_from F s best q cs ≡ some w
      → (best ≡ some w) ⊎ Memᴰ w cs
  unfolding argmax_from
  argmax_from-mem s best q [] w h = inl h
  argmax_from-mem s best q (x ∷ cs) w h =
      elim (argmax_from-mem s (if F.lt q (EpsilonGreedy.q_value F s x.id) then some x else best)
        (if F.lt q (EpsilonGreedy.q_value F s x.id) then EpsilonGreedy.q_value F s x.id else q) cs w
        h) [
          | inr later ↦ inr (Memᴰ.tail later)
          | inl e ↦
              if_both (λ o. o ≡ some w → (best ≡ some w) ⊎ Memᴰ w (x ∷ cs))
                (F.lt q (EpsilonGreedy.q_value F s x.id)) (some x) best
                (λ same. let here : x ≡ w = cc in inr (Memᴰ.head (sym here))) (λ same. inl same) e
        ]

  -- What the three ways to dispatch have in common.
  dispatched :
      (s : EpsilonGreedyScheduler F) (exploring : Bool) (o : Option WorkerInfo) (w : WorkerInfo)
      (info : DispatchInfo F)
      → dispatch F s exploring o ≡ selected (w, info)
      → o ≡ some w
  unfolding dispatch
  dispatched s exploring none w info h = absurd cc
  dispatched s exploring (some x) w info h = cc

  picked-mem :
      (s : EpsilonGreedyScheduler F) (c : Coins) (cs : List WorkerInfo) (w : WorkerInfo)
      → EpsilonGreedy.pick F s c cs ≡ some w
      → Memᴰ w cs
  unfolding EpsilonGreedy.pick argmax_q
  picked-mem s c cs w h =
      if_both (λ o. o ≡ some w → Memᴰ w cs) (EpsilonGreedy.is_exploring F s c) _ _
        (get_elem?-some cs _ w) (λ e. found (argmax_from-mem s none _ cs w e)) h
    where
      found : (◌≡◌ {A = Option WorkerInfo} none (some w)) ⊎ Memᴰ w cs → Memᴰ w cs
      found (inl e) = absurd cc
      found (inr m) = m

  choose-mem :
      (s : EpsilonGreedyScheduler F) (c : Coins) (cs : List WorkerInfo) (w : WorkerInfo)
      (info : DispatchInfo F)
      → choose F s c cs ≡ selected (w, info)
      → Memᴰ w cs
  unfolding choose
  choose-mem s c [] w info h = picked-mem s c [] w (dispatched s _ _ w info h)
  choose-mem s c (x ∷ []) w info h =
      let same : some x ≡ some w = dispatched s false (some x) w info h in Memᴰ.head (cc)
  choose-mem s c (x ∷ y ∷ cs) w info h = picked-mem s c (x ∷ y ∷ cs) w (dispatched s _ _ w info h)

  pub epsilon_greedy-Matches :
      (s : EpsilonGreedyScheduler F) (c : Coins) (reg : RegistryView) (b : BuildType)
      (a : Architecture) (os : String) (w : WorkerInfo) (info : DispatchInfo F)
      → EpsilonGreedy.select_with_dispatch_info F s c reg b a os ≡ selected (w, info)
      → Matches reg b a os w
  unfolding EpsilonGreedy.select_with_dispatch_info
  epsilon_greedy-Matches s c reg b a os w info h =
      elim (Selection-cases (eligible_workers s.circuit_checker reg b a os)) [
        | inr (inl (e, f)) ↦
            let failed : ◌≡◌ {A = Selection (WorkerInfo × DispatchInfo F)} (fails e)
                (selected (w, info)) =
              subst (λ o. (o >>= choose F s c) ≡ selected (w, info)) f h in
            absurd cc
        | inr (inr f) ↦
            let failed : ◌≡◌ {A = Selection (WorkerInfo × DispatchInfo F)} panics
                (selected (w, info)) =
              subst (λ o. (o >>= choose F s c) ≡ selected (w, info)) f h in
            absurd cc
        | inl (cs, f) ↦
            let chosen : choose F s c cs ≡ selected (w, info) =
              subst (λ o. (o >>= choose F s c) ≡ selected (w, info)) f h in
            (eligible_workers-mem s.circuit_checker reg b a os cs f
              (choose-mem s c cs w info chosen)).0.0
      ]

  pub heft-Matches :
      (s : HeftScheduler F) (reg : RegistryView) (b : BuildType) (a : Architecture) (os : String)
      (w : WorkerInfo) (info : Heft.DispatchInfo F)
      → (Heft.select_with_dispatch_info F s reg b a os).1 ≡ selected (w, info)
      → Matches reg b a os w
  heft-Matches s reg b a os w info h = elim (select_earliest F s reg b a os) [
    | inl (x, i, cs, e, f, suits, _, _) ↦
        let same : x ≡ w = cc in subst (Matches reg b a os) same suits.0
    | inr (e, f, _) ↦ absurd (cc)
  ]
