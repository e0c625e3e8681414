-- ===== src/Scheduler/Admission.antt =====
-- Who may get a task: the filters that the schedulers of internal/coordinator/scheduler share.
use hybridgrid.Prelude.{
  ◌⊎◌, String, str_eq, ◌≡◌, ◌≢◌, refl, ◌↔◌, inl, inr, Bool, true, false, ◌||◌, Option, List, [],
  ◌∷◌, keep, mem-keep, Memᴰ, is_empty, arith, Bool-cases,
}
use hybridgrid.Registry.Types.{Architecture, BuildType, WorkerInfo, is_unhealthy}
use hybridgrid.Scheduler.Eligible.{
  Selection, eligible_workers, RegistryView, SelectError, selected, fails, panics, runs_on,
  filter_by_os, matching_workers, has_room, circuit_open, admits, admits_relaxed, candidates,
}

-- A worker that the registry lists for the build, on the client's system or with Docker if a system
-- is asked for.
abbrev pub Matches : RegistryView → BuildType → Architecture → String → WorkerInfo → Type 0
Matches reg b a os w =
    Memᴰ w (reg.listed b a) × ((str_eq os "" || runs_on os w.capabilities) ≡ true)

pub empty-no-mem {ℓ} : {A : Type ℓ} (xs : List A) {x : A} → is_empty xs ≡ true → ¬ Memᴰ x xs
empty-no-mem [] e m = elim m [ ]
empty-no-mem (y ∷ ys) e m = cc

mem-not-empty {ℓ} : {A : Type ℓ} (xs : List A) {x : A} → Memᴰ x xs → is_empty xs ≡ false
mem-not-empty [] m = elim m [ ]
mem-not-empty (y ∷ ys) m = refl

module _ (reg : RegistryView) (b : BuildType) (a : Architecture) (os : String) where
  -- The list that passes the first part holds exactly the matching workers, and is not empty.
  pub matching_workers-mem :
      (ws : List WorkerInfo) {w : WorkerInfo}
      → matching_workers reg b a os ≡ selected ws
      → Memᴰ w ws ↔ Matches reg b a os w
  unfolding matching_workers filter_by_os
  matching_workers-mem ws {w} e = elim (Bool-cases (str_eq os "")) [
    | inl any ↦
        let same : reg.listed b a ≡ ws = ground arith in rw (← same, any) (λ m. (m, refl), λ m. m.0)
    | inr given ↦
        let same : keep (λ x. runs_on os x.capabilities) (reg.listed b a) ≡ ws = ground arith in
        rw (← same, given) (mem-keep (λ x. runs_on os x.capabilities) (reg.listed b a))
  ]

  -- It fails only when nobody matches.
  pub matching_workers-none :
      (e : SelectError) (w : WorkerInfo)
      → matching_workers reg b a os ≡ fails e
      → ¬ Matches reg b a os w
  unfolding matching_workers filter_by_os
  matching_workers-none e w h m = elim (Bool-cases (is_empty (reg.listed b a))) [
    | inl nobody ↦ empty-no-mem (reg.listed b a) nobody m.0
    | inr somebody ↦ elim (Bool-cases (str_eq os "")) [
      | inl any ↦ absurd (ground arith)
      | inr given ↦
          let kept = keep (λ (x : WorkerInfo). runs_on os x.capabilities) (reg.listed b a) in
          let nobody : is_empty kept ≡ true = ground arith in
          let fits : runs_on os w.capabilities ≡ true = ground (arith, m.1) in
          empty-no-mem kept nobody (
            (mem-keep (λ (x : WorkerInfo). runs_on os x.capabilities) (reg.listed b a)).1
              (m.0, fits))
    ]
  ]

  pub matching_workers-ne-panics : matching_workers reg b a os ≢ panics
  unfolding matching_workers
  matching_workers-ne-panics = ground arith

admits-true :
    (checker : Option (String → Bool)) (w : WorkerInfo)
    → admits checker w ≡ true
    → (is_unhealthy w.state ≡ false) × (circuit_open checker w.id ≡ false) × (has_room w ≡ true)
unfolding admits
admits-true checker w h = ground arith

pub admits_relaxed_iff :
    (w : WorkerInfo)
    → (admits_relaxed w ≡ true) ↔ ((is_unhealthy w.state ≡ false) × (has_room w ≡ true))
unfolding admits_relaxed
admits_relaxed_iff w = ground arith

module _ (checker : Option (String → Bool)) (ws : List WorkerInfo) {w : WorkerInfo} where
  -- Both passes keep to workers that are not unhealthy and have room; a worker with an open circuit
  -- gets in only when no worker passes the strict test.
  pub candidates-mem :
      Memᴰ w (candidates checker ws)
      → Memᴰ w ws
        × (is_unhealthy w.state ≡ false)
        × (has_room w ≡ true)
        × (circuit_open checker w.id ≡ true
            → (x : WorkerInfo) → Memᴰ x ws
            → admits checker x ≡ false)
  unfolding candidates
  candidates-mem m = elim (Bool-cases (is_empty (keep (admits checker) ws))) [
    | inl nobody ↦
        let relaxed : Memᴰ w (keep admits_relaxed ws) = rw (nobody, candidates) at m in
        let (there, passes) = (mem-keep admits_relaxed ws).0 relaxed in
        let (healthy, room) = (admits_relaxed_iff w).0 passes in
        (
          there,
          healthy,
          room,
          λ _ x mx. elim (Bool-cases (admits checker x)) [
            | inl good ↦
                absurd (empty-no-mem _ nobody ((mem-keep (admits checker) ws).1 (mx, good)))
            | inr bad ↦ bad
          ],
        )
    | inr somebody ↦
        let strict : Memᴰ w (keep (admits checker) ws) = rw (somebody, candidates) at m in
        let (there, passes) = (mem-keep (admits checker) ws).0 strict in
        let (healthy, closed, room) = admits-true checker w passes in
        (there, healthy, room, λ open_circuit x mx. absurd (ground arith))
  ]

  -- Nobody is left out for another reason.
  pub candidates-none :
      is_empty (candidates checker ws) ≡ true
      → Memᴰ w ws
      → is_unhealthy w.state ≡ false
      → has_room w ≡ false
  unfolding candidates
  candidates-none e m healthy = elim (Bool-cases (has_room w)) [
    | inr full ↦ full
    | inl room ↦
        let nobody : is_empty (keep admits_relaxed ws) ≡ true = ground arith in
        absurd (
          empty-no-mem _ nobody
            ((mem-keep admits_relaxed ws).1 (m, (admits_relaxed_iff w).1 (healthy, room))))
  ]

pub Selection-cases {ℓ} :
    {A : Type ℓ} (m : Selection A)
    → ((a : A) × (m ≡ selected a)) ⊎ (((e : SelectError) × (m ≡ fails e)) ⊎ (m ≡ panics))
Selection-cases (selected a) = inl (a, refl)
Selection-cases (fails e) = inr (inl (e, refl))
Selection-cases panics = inr (inr refl)

-- A worker that may get the task.
abbrev pub Suitable : RegistryView → BuildType → Architecture → String → WorkerInfo → Type 0
Suitable reg b a os w = Matches reg b a os w × (is_unhealthy w.state ≡ false) × (has_room w ≡ true)

module _ (checker : Option (String → Bool)) (reg : RegistryView) (b : BuildType) (a : Architecture)
    (os : String) where
  -- The circuit of a chosen worker is closed, or no suitable worker has a closed circuit.
  abbrev pub Preferred : WorkerInfo → Type 0
  Preferred w =
      circuit_open checker w.id ≡ true
      → (x : WorkerInfo) → Suitable reg b a os x
      → admits checker x ≡ false

  -- Every eligible worker is suitable, and preferred by the circuit breaker.
  pub eligible_workers-mem :
      (cs : List WorkerInfo) {w : WorkerInfo}
      → eligible_workers checker reg b a os ≡ selected cs
      → Memᴰ w cs
      → Suitable reg b a os w × Preferred w
  unfolding eligible_workers
  eligible_workers-mem cs {w} e m = elim (Selection-cases (matching_workers reg b a os)) [
    | inr (inl (x, f)) ↦ absurd (ground arith)
    | inr (inr f) ↦ absurd (ground arith)
    | inl (ws, f) ↦
        let same : candidates checker ws ≡ cs = ground arith in
        let (there, healthy, room, rest) = candidates-mem checker ws (rw (← same) at m) in
        let matches = (matching_workers-mem reg b a os ws f).0 there in
        (
          (matches, healthy, room),
          λ o x sx. rest o x ((matching_workers-mem reg b a os ws f).1 sx.0),
        )
  ]

  -- If the selection fails then no worker is suitable.
  pub eligible_workers-none :
      (e : SelectError) (w : WorkerInfo)
      → eligible_workers checker reg b a os ≡ fails e
      → ¬ Suitable reg b a os w
  unfolding eligible_workers
  eligible_workers-none e w h s = elim (Selection-cases (matching_workers reg b a os)) [
    | inr (inl (x, f)) ↦ matching_workers-none reg b a os x w f s.0
    | inr (inr f) ↦ matching_workers-ne-panics reg b a os f
    | inl (ws, f) ↦
        let nobody : is_empty (candidates checker ws) ≡ true = ground arith in
        let there : Memᴰ w ws = (matching_workers-mem reg b a os ws f).1 s.0 in
        let full : has_room w ≡ false = candidates-none checker ws nobody there s.1 in cc
  ]

  pub eligible_workers-ne-panics : eligible_workers checker reg b a os ≢ panics
  unfolding eligible_workers
  eligible_workers-ne-panics h = elim (Selection-cases (matching_workers reg b a os)) [
    | inr (inl (x, f)) ↦ absurd (ground arith)
    | inr (inr f) ↦ matching_workers-ne-panics reg b a os f
    | inl (ws, f) ↦ absurd (ground arith)
  ]

  pub eligible_workers-ne-nil : eligible_workers checker reg b a os ≢ selected []
  unfolding eligible_workers
  eligible_workers-ne-nil h = elim (Selection-cases (matching_workers reg b a os)) [
    | inr (inl (x, f)) ↦ absurd (ground arith)
    | inr (inr f) ↦ absurd (ground arith)
    | inl (ws, f) ↦ absurd (ground arith)
  ]
