-- ===== src/Scheduler/LeastLoaded/Laws.antt =====
-- What `LeastLoadedScheduler` of internal/coordinator/scheduler/scheduler.go guarantees.
use hybridgrid.Prelude.{
  ◌≡◌, refl, ap, ◌⊎◌, inl, inr, String, true, false, none, some, List, [], ◌∷◌, arith, Memᴰ,
  Bool-cases, for_members,
}
use hybridgrid.Prelude.Memᴰ
use hybridgrid.Prelude.Int.{ℤ, ltb_ℤ, pos, negsuc}
use hybridgrid.Registry.Types.{Architecture, BuildType, WorkerInfo, is_unhealthy}
use hybridgrid.Scheduler.Eligible.{
  RegistryView, SelectError, selected, fails, no_matching_workers, matching_workers,
}
use hybridgrid.Scheduler.Admission.{
  Selection-cases, Matches, matching_workers-mem, matching_workers-none, matching_workers-ne-panics,
}
use hybridgrid.Scheduler.LeastLoaded.{better, least_loaded, or_no_match, select}

-- A listed worker is passed over, or carries at least as many tasks as the chosen one.
abbrev pub NotLighter : WorkerInfo → WorkerInfo → Type 0
NotLighter w x = is_unhealthy x.state ≡ false → ltb_ℤ x.active_tasks w.active_tasks ≡ false

ltb_ℤ-irrefl : (a : ℤ) → ltb_ℤ a a ≡ false
ltb_ℤ-irrefl (pos n) = ground arith
ltb_ℤ-irrefl (negsuc n) = ground arith

-- What is not below `b` is not below anything below `b`.
ltb_ℤ-through : (y b n : ℤ) → ltb_ℤ y b ≡ false → ltb_ℤ n b ≡ true → ltb_ℤ y n ≡ false
ltb_ℤ-through (pos y) (pos b) (pos n) h k = ground arith
ltb_ℤ-through (pos y) (pos b) (negsuc n) h k = ground arith
ltb_ℤ-through (pos y) (negsuc b) (pos n) h k = ground arith
ltb_ℤ-through (pos y) (negsuc b) (negsuc n) h k = ground arith
ltb_ℤ-through (negsuc y) (pos b) (pos n) h k = ground arith
ltb_ℤ-through (negsuc y) (pos b) (negsuc n) h k = ground arith
ltb_ℤ-through (negsuc y) (negsuc b) (pos n) h k = ground arith
ltb_ℤ-through (negsuc y) (negsuc b) (negsuc n) h k = ground arith

-- The loop with a best worker so far: its result is that one or a later member, it is not unhealthy,
-- and nobody before or after is lighter.
least_loaded-some :
    (b : WorkerInfo) (ws : List WorkerInfo)
    → is_unhealthy b.state ≡ false
    → (w : WorkerInfo) × (least_loaded (some b) ws ≡ some w)
      × Memᴰ w (b ∷ ws)
      × (is_unhealthy w.state ≡ false)
      × ((x : WorkerInfo) → NotLighter b x → NotLighter w x)
      × ((x : WorkerInfo) → Memᴰ x ws → NotLighter w x)
unfolding least_loaded better
least_loaded-some b [] h = (b, refl, Memᴰ.head refl, h, λ x k. k, λ x m. absurd (Memᴰ.not-nil m))
least_loaded-some b (y ∷ ws) h = elim (Bool-cases (is_unhealthy y.state)) [
  | inl ill ↦
      let (w, e, m, healthy, before, after) = least_loaded-some b ws h in
      (
        w,
        rw ill e,
        behind m,
        healthy,
        before,
        for_members (NotLighter w) y ws (λ fit. absurd (ground arith)) after,
      )
  | inr fit ↦ elim (Bool-cases (ltb_ℤ y.active_tasks b.active_tasks)) [
    | inl lighter ↦
        let (w, e, m, healthy, before, after) = least_loaded-some y ws fit in
        (
          w,
          rw fit (rw lighter e),
          Memᴰ.tail m,
          healthy,
          λ x k.
              before x
                (λ i. ltb_ℤ-through x.active_tasks b.active_tasks y.active_tasks (k i) lighter),
          for_members (NotLighter w) y ws (before y (λ _. ltb_ℤ-irrefl y.active_tasks)) after,
        )
    | inr heavy ↦
        let (w, e, m, healthy, before, after) = least_loaded-some b ws h in
        (
          w,
          rw fit (rw heavy e),
          behind m,
          healthy,
          before,
          for_members (NotLighter w) y ws (before y (λ _. heavy)) after,
        )
  ]
]
  where
    behind : {w : WorkerInfo} → Memᴰ w (b ∷ ws) → Memᴰ w (b ∷ y ∷ ws)
    behind m = elim (Memᴰ.cases_cons m) [
      | inl e ↦ Memᴰ.head e
      | inr later ↦ Memᴰ.tail (Memᴰ.tail later)
    ]

-- The whole loop finds a lightest healthy worker, or there is none.
least_loaded_lem :
    (ws : List WorkerInfo)
    → ((w : WorkerInfo) × (least_loaded none ws ≡ some w)
        × Memᴰ w ws
        × (is_unhealthy w.state ≡ false)
        × ((x : WorkerInfo) → Memᴰ x ws → NotLighter w x))
      ⊎ ((least_loaded none ws ≡ none)
          × ((x : WorkerInfo) → Memᴰ x ws → is_unhealthy x.state ≡ true))
unfolding least_loaded better
least_loaded_lem [] = inr (refl, λ x m. absurd (Memᴰ.not-nil m))
least_loaded_lem (y ∷ ws) = elim (Bool-cases (is_unhealthy y.state)) [
  | inl ill ↦ elim (least_loaded_lem ws) [
    | inl (w, e, m, healthy, all) ↦ inl (
      w,
      rw ill e,
      Memᴰ.tail m,
      healthy,
      for_members (NotLighter w) y ws (λ fit. absurd (ground arith)) all,
    )
    | inr (e, all) ↦ inr (rw ill e, for_members (λ x. is_unhealthy x.state ≡ true) y ws ill all)
  ]
  | inr fit ↦
      let (w, e, m, healthy, before, after) = least_loaded-some y ws fit in
      inl (
        w,
        rw fit e,
        m,
        healthy,
        for_members (NotLighter w) y ws (before y (λ _. ltb_ℤ-irrefl y.active_tasks)) after,
      )
]

module _ (reg : RegistryView) (b : BuildType) (a : Architecture) (os : String) where
  -- A selection does not panic. It fails exactly when every listed worker that fits the client's system
  -- is unhealthy. Otherwise it returns such a worker that is not unhealthy, and none of those has fewer
  -- active tasks.
  pub select_lightest :
      ((w : WorkerInfo) × (select reg b a os ≡ selected w)
        × Matches reg b a os w
        × (is_unhealthy w.state ≡ false)
        × ((x : WorkerInfo) → Matches reg b a os x → NotLighter w x))
      ⊎ ((e : SelectError) × (select reg b a os ≡ fails e)
          × ((x : WorkerInfo) → Matches reg b a os x → is_unhealthy x.state ≡ true))
  unfolding select
  select_lightest = elim (Selection-cases (matching_workers reg b a os)) [
    | inr (inl (e, f)) ↦
        inr (e, rw (f, select), λ x m. absurd (matching_workers-none reg b a os e x f m))
    | inr (inr f) ↦ absurd (matching_workers-ne-panics reg b a os f)
    | inl (ws, f) ↦
        let back : (x : WorkerInfo) → Matches reg b a os x → Memᴰ x ws =
          λ x. (matching_workers-mem reg b a os ws f).1 in
        elim (least_loaded_lem ws) [
          | inl (w, e, m, healthy, all) ↦ inl (
            w,
            rw (f, select) (ap or_no_match e),
            (matching_workers-mem reg b a os ws f).0 m,
            healthy,
            λ x mx. all x (back x mx),
          )
          | inr (e, all) ↦
              inr
                (no_matching_workers, rw (f, select) (ap or_no_match e), λ x mx. all x (back x mx))
        ]
  ]
