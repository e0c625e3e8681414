-- ===== src/Scheduler/Heft/Laws.antt =====
-- What `SelectWithDispatchInfo` of internal/coordinator/scheduler/heft.go guarantees.
use hybridgrid.Prelude.{
  ◌≤◌, ◌≡◌, ◌≢◌, refl, ◌∙◌, ap, ◌⊎◌, inl, inr, String, true, false, some, List, [], ◌∷◌, length,
  arith, Memᴰ,
}
use hybridgrid.Prelude.Float.{Float}
use hybridgrid.Prelude.Maps.{lookup}
use hybridgrid.Metrics.Ewma.{Ewma}
use hybridgrid.Registry.Types.{Architecture, BuildType, WorkerInfo}
use hybridgrid.Scheduler.Eligible.{RegistryView, SelectError, selected, fails, eligible_workers}
use hybridgrid.Scheduler.Admission.{
  Selection-cases, Suitable, Preferred, eligible_workers-mem, eligible_workers-none,
  eligible_workers-ne-panics, eligible_workers-ne-nil,
}
use hybridgrid.Scheduler.Heft.{
  HeftScheduler, DispatchInfo, eft, consider_all, loop_start, earliest, choose,
  select_with_dispatch_info, report, outcome,
}
use hybridgrid.Scheduler.Heft.Rounds.{consider_all-Settled}

module _ (F : Float) (s : HeftScheduler F) where
  -- `w` finishes first by the averages that the selection leaves in the scheduler `t`: every candidate
  -- has an average there, and none would finish before `w`.
  abbrev pub FinishesFirst : HeftScheduler F → List WorkerInfo → WorkerInfo → Type 0
  FinishesFirst t cs w =
      (e : Ewma F) × (lookup w.id t.wbar ≡ some e)
      × ((x : WorkerInfo)
          → Memᴰ x cs
          → (d : Ewma F) × (lookup x.id t.wbar ≡ some d)
            × (d.init ≡ true)
            × (F.lt (eft F x d.value) (eft F w e.value) ≡ false))

  choose_lem :
      (cs : List WorkerInfo)
      → cs ≢ []
      → (w : WorkerInfo) × (info : DispatchInfo F) × ((choose F s cs).1 ≡ selected (w, info))
        × Memᴰ w cs
        × (2 ≤ length cs → FinishesFirst (choose F s cs).0 cs w)
  unfolding choose earliest
  choose_lem [] h = absurd (h refl)
  choose_lem (w ∷ []) h = (w, _, refl, Memᴰ.head refl, λ k. absurd (omega arith))
  choose_lem (x ∷ y ∷ cs) h =
      let ((w, m, (best, (e, found, init, at))), all) =
        consider_all-Settled F s.alpha x (y ∷ cs) s.wbar in
      (
        w,
        (report F (consider_all F s.alpha (x ∷ y ∷ cs) (loop_start F s.wbar)) w).1,
        ap (outcome F (consider_all F s.alpha (x ∷ y ∷ cs) (loop_start F s.wbar))) best,
        m,
        λ _. (e, found, λ z mz. let (d, f, i, slow) = all z mz in (d, f, i, rw (← at) slow)),
      )

  -- A selection does not panic. It fails exactly when no listed worker fits the client's system, is not
  -- unhealthy and has room. Otherwise it returns such a worker, whose circuit is closed unless no such
  -- worker has a closed circuit; and where two or more workers were eligible, all of them have an
  -- average afterwards, by which none would finish before the chosen one.
  pub select_earliest :
      (reg : RegistryView) (b : BuildType) (a : Architecture) (os : String)
      → ((w : WorkerInfo) × (info : DispatchInfo F) × (cs : List WorkerInfo)
          × ((select_with_dispatch_info F s reg b a os).1 ≡ selected (w, info))
          × (eligible_workers s.circuit_checker reg b a os ≡ selected cs)
          × Suitable reg b a os w
          × Preferred s.circuit_checker reg b a os w
          × (2 ≤ length cs → FinishesFirst (select_with_dispatch_info F s reg b a os).0 cs w))
        ⊎ ((e : SelectError) × ((select_with_dispatch_info F s reg b a os).1 ≡ fails e)
            × ((w : WorkerInfo) → ¬ Suitable reg b a os w))
  unfolding select_with_dispatch_info
  select_earliest reg b a os =
      elim (Selection-cases (eligible_workers s.circuit_checker reg b a os)) [
        | inr (inl (e, f)) ↦ inr (
          e,
          rw (f, select_with_dispatch_info),
          λ w. eligible_workers-none s.circuit_checker reg b a os e w f,
        )
        | inr (inr f) ↦ absurd (eligible_workers-ne-panics s.circuit_checker reg b a os f)
        | inl (cs, f) ↦
            let some_worker : cs ≢ [] =
              λ z. eligible_workers-ne-nil s.circuit_checker reg b a os (f ∙ ap selected z) in
            let (w, info, e, m, first) = choose_lem cs some_worker in
            let (suits, prefers) = eligible_workers-mem s.circuit_checker reg b a os cs f m in
            inl (
              w,
              info,
              cs,
              rw (f, select_with_dispatch_info) e,
              f,
              suits,
              prefers,
              rw (f, select_with_dispatch_info) first,
            )
      ]
