-- ===== src/Scheduler/P2c/Laws.antt =====
-- What `Select` of `P2CScheduler` in internal/coordinator/scheduler/scheduler.go guarantees.
use hybridgrid.Prelude.{
  ℕ, ◌-◌, ◌≤◌, ◌<◌, ◌≡◌, ◌≢◌, refl, ◌⊎◌, inl, inr, String, Bool, true, false, Option, some, List,
  [], ◌∷◌, if◌then◌else◌, ltb, sym, ◌∙◌, ap, length, get_elem?, get_elem?-mem, arith, Memᴰ,
  Bool-cases, Option-cases,
}
use hybridgrid.Prelude.Float.{Float}
use hybridgrid.Metrics.Latency.{LatencyTracker}
use hybridgrid.Registry.Types.{Architecture, BuildType, WorkerInfo}
use hybridgrid.Scheduler.Eligible.{RegistryView, SelectError, selected, fails, eligible_workers}
use hybridgrid.Scheduler.Admission.{
  Selection-cases, Suitable, Preferred, eligible_workers-mem, eligible_workers-none,
  eligible_workers-ne-panics, eligible_workers-ne-nil,
}
use hybridgrid.Scheduler.P2c.{
  Draws, AreInRange, crypto_rand_int, pick_two, score_worker, duel, choose, select,
}

pub crypto_rand_int-lt :
    (draw : ℕ → Option ℕ) (n : ℕ)
    → ((v : ℕ) → draw n ≡ some v → v < n)
    → 0 < n
    → crypto_rand_int draw n < n
unfolding crypto_rand_int
crypto_rand_int-lt draw n h p = elim (Option-cases (draw n)) [
  | inl e ↦ ground arith
  | inr (v, e) ↦ ground (arith, h v)
]

-- Of two or more, two different indices in range are picked.
pub pick_two_lem :
    (d : Draws) (n : ℕ)
    → AreInRange d
    → 2 ≤ n
    → ((pick_two d n).0 < n) × ((pick_two d n).1 < n) × ((pick_two d n).0 ≢ (pick_two d n).1)
unfolding pick_two
pick_two_lem d n r h = ground (
  arith,
  crypto_rand_int-lt d.first n (r.first_lt n),
  crypto_rand_int-lt d.second (n - 1) (r.second_lt (n - 1)),
)

-- Every pair of different indices can be picked, by two numbers in the ranges of the draws.
pub pick_two_onto :
    (n i j : ℕ)
    → i < n
    → j < n
    → i ≢ j
    → (u : ℕ) × (v : ℕ) × (u < n)
      × (v < n - 1)
      × (pick_two (record { first = λ _. some u; second = λ _. some v }) n ≡ (i, j))
unfolding pick_two crypto_rand_int
pick_two_onto n i j hi hj h = (i, if ltb i j then j - 1 else j, hi, ground arith, ground arith)

module _ (F : Float) (tracker : LatencyTracker F) (d : Draws) (arch : Architecture) where
  -- `w` won a comparison of scores against another candidate.
  pub record Wins (cs : List WorkerInfo) (w : WorkerInfo) : Type 0 where
    pub here : ℕ
    pub there : ℕ
    pub rival : WorkerInfo
    pub apart : here ≢ there
    pub is_here : get_elem? cs here ≡ some w
    pub is_there : get_elem? cs there ≡ some rival
    pub at_least :
        F.is_nan (score_worker F tracker w arch) ≡ false
        → F.is_nan (score_worker F tracker rival arch) ≡ false
        → F.le (score_worker F tracker rival arch) (score_worker F tracker w arch) ≡ true

  duel-Wins :
      (cs : List WorkerInfo)
      → AreInRange d
      → 2 ≤ length cs
      → (w : WorkerInfo) × (duel F tracker d arch cs ≡ selected w) × Memᴰ w cs × Wins cs w
  unfolding duel
  duel-Wins cs r h =
      let (hi, hj, apart) = pick_two_lem d (length cs) r h in
      let (w1, e1, m1) = get_elem?-mem cs (pick_two d (length cs)).0 hi in
      let (w2, e2, m2) = get_elem?-mem cs (pick_two d (length cs)).1 hj in
      elim (Bool-cases (F.le (score_worker F tracker w2 arch) (score_worker F tracker w1 arch))) [
        | inl first ↦ (
          w1,
          rw (e1, duel) (rw (e2, duel) (rw first)),
          m1,
          record {
            here = (pick_two d (length cs)).0;
            there = (pick_two d (length cs)).1;
            rival = w2;
            apart = apart;
            is_here = e1;
            is_there = e2;
            at_least = λ _ _. first;
          },
        )
        | inr second ↦ (
          w2,
          rw (e1, duel) (rw (e2, duel) (rw second)),
          m2,
          record {
            here = (pick_two d (length cs)).1;
            there = (pick_two d (length cs)).0;
            rival = w1;
            apart = λ e. apart (sym e);
            is_here = e2;
            is_there = e1;
            at_least = λ p q. F.not_le _ _ p q second;
          },
        )
      ]

  -- The choice among the candidates: it is one of them, and with two or more it won a comparison.
  choose_lem :
      (cs : List WorkerInfo)
      → AreInRange d
      → cs ≢ []
      → (w : WorkerInfo) × (choose F tracker d arch cs ≡ selected w)
        × Memᴰ w cs
        × (2 ≤ length cs → Wins cs w)
  unfolding choose
  choose_lem [] r h = absurd (h refl)
  choose_lem (w ∷ []) r h = (w, refl, Memᴰ.head refl, λ k. absurd (omega arith))
  choose_lem (w ∷ x ∷ cs) r h =
      let (v, e, m, wins) = duel-Wins (w ∷ x ∷ cs) r (omega arith) in (v, e, m, λ _. wins)

  module _ (checker : Option (String → Bool)) (reg : RegistryView) (b : BuildType)
      (os : String) where
    -- With random numbers in range a selection does not panic. It fails exactly when no listed worker
    -- fits the client's system, is not unhealthy and has room. Otherwise it returns such a worker; its
    -- circuit is closed unless no such worker has a closed circuit; and where two or more workers were
    -- eligible, it scored at least as high as another eligible one (if no score is NaN).
    pub select_of_two :
        AreInRange d
        → ((w : WorkerInfo) × (cs : List WorkerInfo) × (select F tracker checker d reg b arch os
              ≡ selected w)
            × (eligible_workers checker reg b arch os ≡ selected cs)
            × Memᴰ w cs
            × Suitable reg b arch os w
            × Preferred checker reg b arch os w
            × (2 ≤ length cs → Wins cs w))
          ⊎ ((e : SelectError) × (select F tracker checker d reg b arch os ≡ fails e)
              × ((w : WorkerInfo) → ¬ Suitable reg b arch os w))
    unfolding select
    select_of_two r = elim (Selection-cases (eligible_workers checker reg b arch os)) [
      | inr (inl (e, f)) ↦ inr (e, rw f, λ w. eligible_workers-none checker reg b arch os e w f)
      | inr (inr f) ↦ absurd (eligible_workers-ne-panics checker reg b arch os f)
      | inl (cs, f) ↦
          let some_worker : cs ≢ [] =
            λ z. eligible_workers-ne-nil checker reg b arch os (f ∙ ap selected z) in
          let (w, e, m, wins) = choose_lem cs r some_worker in
          let (suits, prefers) = eligible_workers-mem checker reg b arch os cs f m in
          inl (w, cs, rw f e, f, m, suits, prefers, wins)
    ]
