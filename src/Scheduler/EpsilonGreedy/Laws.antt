-- ===== src/Scheduler/EpsilonGreedy/Laws.antt =====
-- What `SelectWithDispatchInfo` and `RecordOutcome` of
-- internal/coordinator/scheduler/epsilon_greedy.go guarantee.
use hybridgrid.Prelude.{
  ℕ, ◌<◌, ◌≡◌, ◌≢◌, refl, ◌∙◌, ap, ◌⊎◌, inl, inr, String, str_eq, true, false, ◌||◌, some, List, [],
  ◌∷◌, if◌then◌else◌, length, get_elem?-mem, arith, Memᴰ, Bool-cases,
}
use hybridgrid.Prelude.Memᴰ
use hybridgrid.Prelude.Float.{Float}
use hybridgrid.Prelude.Maps.{lookup, lookup-insert}
use hybridgrid.Registry.Types.{Architecture, BuildType, WorkerInfo}
use hybridgrid.Scheduler.Eligible.{RegistryView, SelectError, selected, fails, eligible_workers}
use hybridgrid.Scheduler.Admission.{
  Selection-cases, Suitable, Preferred, eligible_workers-mem, eligible_workers-none,
  eligible_workers-ne-panics, eligible_workers-ne-nil,
}
use hybridgrid.Scheduler.P2c.{crypto_rand_int}
use hybridgrid.Scheduler.P2c.Laws.{crypto_rand_int-lt}
use hybridgrid.Scheduler.EpsilonGreedy.{
  DispatchInfo, EpsilonGreedyScheduler, Coins, q_value, argmax_from, argmax_q, is_exploring, pick,
  choose, select_with_dispatch_info, learn, new_arm, record_outcome,
}

length-pos {ℓ} : {A : Type ℓ} (xs : List A) → xs ≢ [] → 0 < length xs
length-pos [] h = absurd (h refl)
length-pos (x ∷ xs) h = omega arith

module _ (F : Float) (s : EpsilonGreedyScheduler F) where
  open F use {Carrier, le, lt, neg_inf, is_nan, is_inf}

  -- The estimates are finite, as `RecordOutcome` keeps out NaN and infinite rewards.
  abbrev pub IsFinite : Type 0
  IsFinite = (id : String) → (is_nan (q_value F s id) ≡ false) × (is_inf (q_value F s id) ≡ false)

  -- `w` is in the list and no member has a higher estimate.
  pub record IsGreedy (cs : List WorkerInfo) (w : WorkerInfo) : Type 0 where
    pub member : Memᴰ w cs
    pub highest : (x : WorkerInfo) → Memᴰ x cs → le (q_value F s x.id) (q_value F s w.id) ≡ true

  q_le_self : IsFinite → (id : String) → le (q_value F s id) (q_value F s id) ≡ true
  q_le_self fin id = F.le_refl (q_value F s id) (fin id).0

  -- A worker with no higher estimate joins the list, in front or behind its head.
  front-IsGreedy :
      (y : WorkerInfo) (cs : List WorkerInfo) {w : WorkerInfo}
      → le (q_value F s y.id) (q_value F s w.id) ≡ true
      → IsGreedy cs w
      → IsGreedy (y ∷ cs) w
  front-IsGreedy y cs {w} h g = record {
    member = Memᴰ.tail g.member;
    highest = λ x m. elim (Memᴰ.cases_cons m) [ inl e ↦ rw e h | inr later ↦ g.highest x later ];
  }

  second-IsGreedy :
      (y z : WorkerInfo) (cs : List WorkerInfo) {w : WorkerInfo}
      → le (q_value F s y.id) (q_value F s z.id) ≡ true
      → IsGreedy (z ∷ cs) w
      → IsGreedy (z ∷ y ∷ cs) w
  second-IsGreedy y z cs {w} h g = record {
    member = elim (Memᴰ.cases_cons g.member) [
      | inl e ↦ Memᴰ.head e
      | inr later ↦ Memᴰ.tail (Memᴰ.tail later)
    ];
    highest = λ x m. elim (Memᴰ.cases_cons m) [
      | inl e ↦ g.highest x (Memᴰ.head e)
      | inr later ↦ elim (Memᴰ.cases_cons later) [
        | inl e ↦ rw e (F.le_trans _ _ _ h (g.highest z (Memᴰ.head refl)))
        | inr last ↦ g.highest x (Memᴰ.tail last)
      ]
    ];
  }

  single : (best : WorkerInfo) → IsFinite → IsGreedy (best ∷ []) best
  single best fin = record {
    member = Memᴰ.head refl;
    highest = λ x m. elim (Memᴰ.cases_cons m) [
      | inl e ↦ rw e (q_le_self fin best.id)
      | inr later ↦ absurd (Memᴰ.not-nil later)
    ];
  }

  -- The loop from a worker that is the best so far.
  argmax_from-best :
      (best : WorkerInfo) (cs : List WorkerInfo)
      → IsFinite
      → (w : WorkerInfo) × (argmax_from F s (some best) (q_value F s best.id) cs ≡ some w)
        × IsGreedy (best ∷ cs) w
  unfolding argmax_from
  argmax_from-best best [] fin = (best, refl, single best fin)
  argmax_from-best best (x ∷ cs) fin =
      elim (Bool-cases (lt (q_value F s best.id) (q_value F s x.id))) [
        | inl higher ↦
            let (w, e, g) = argmax_from-best x cs fin in
            (
              w,
              rw higher e,
              front-IsGreedy best (x ∷ cs)
                  (F.le_trans _ _ _ (F.lt-le _ _ higher) (g.highest x (Memᴰ.head refl))) g,
            )
        | inr lower ↦
            let (w, e, g) = argmax_from-best best cs fin in
            (
              w,
              rw lower e,
              second-IsGreedy x best cs (F.not_lt _ _ (fin best.id).0 (fin x.id).0 lower) g,
            )
      ]

  -- With finite estimates the loop finds, in a list that is not empty, a worker of highest estimate.
  argmax_q-IsGreedy :
      (cs : List WorkerInfo)
      → IsFinite
      → cs ≢ []
      → (w : WorkerInfo) × (argmax_q F s cs ≡ some w) × IsGreedy cs w
  unfolding argmax_q
  argmax_q-IsGreedy [] fin h = absurd (h refl)
  argmax_q-IsGreedy (x ∷ cs) fin h =
      let above = F.above_neg_inf (q_value F s x.id) (fin x.id).0 (fin x.id).1 in
      let (w, e, g) = argmax_from-best x cs fin in (w, rw above e, g)

  -- The bounds that `rand.Int` documents.
  abbrev pub InRange : Coins → Type 0
  InRange c = (n v : ℕ) → c.index n ≡ some v → v < n

  pick_lem :
      (c : Coins) (cs : List WorkerInfo)
      → IsFinite
      → InRange c
      → cs ≢ []
      → (w : WorkerInfo) × (pick F s c cs ≡ some w)
        × Memᴰ w cs
        × (is_exploring F s c ≡ false → IsGreedy cs w)
  unfolding pick
  pick_lem c cs fin r h = elim (Bool-cases (is_exploring F s c)) [
    | inl explores ↦
        let (w, e, m) =
          get_elem?-mem cs (crypto_rand_int c.index (length cs))
            (crypto_rand_int-lt c.index (length cs) (r (length cs)) (length-pos cs h)) in
        (w, rw explores e, m, λ k. absurd (ground arith))
    | inr exploits ↦
        let (w, e, g) = argmax_q-IsGreedy cs fin h in (w, rw exploits e, g.member, λ _. g)
  ]

  choose_lem :
      (c : Coins) (cs : List WorkerInfo)
      → IsFinite
      → InRange c
      → cs ≢ []
      → (w : WorkerInfo) × (info : DispatchInfo F) × (choose F s c cs ≡ selected (w, info))
        × Memᴰ w cs
        × (info.q_value_at_dispatch ≡ q_value F s w.id)
        × (info.was_exploration ≡ false → IsGreedy cs w)
  unfolding choose
  choose_lem c [] fin r h = absurd (h refl)
  choose_lem c (x ∷ []) fin r h = (x, _, refl, Memᴰ.head refl, refl, λ _. single x fin)
  choose_lem c (x ∷ y ∷ cs) fin r h =
      let (w, e, m, g) = pick_lem c (x ∷ y ∷ cs) fin r h in (w, _, rw e, m, refl, g)

  -- With finite estimates and random numbers in range a selection does not panic. It fails exactly
  -- when no listed worker fits the client's system, is not unhealthy and has room. Otherwise it returns
  -- such a worker, whose circuit is closed unless no such worker has a closed circuit; it reports the
  -- worker's estimate; and when it reports no exploration no eligible worker has a higher estimate.
  pub select_by_epsilon :
      (c : Coins) (reg : RegistryView) (b : BuildType) (a : Architecture) (os : String)
      → IsFinite
      → InRange c
      → ((w : WorkerInfo) × (info : DispatchInfo F) × (cs : List WorkerInfo)
          × (select_with_dispatch_info F s c reg b a os ≡ selected (w, info))
          × (eligible_workers s.circuit_checker reg b a os ≡ selected cs)
          × Suitable reg b a os w
          × Preferred s.circuit_checker reg b a os w
          × (info.q_value_at_dispatch ≡ q_value F s w.id)
          × (info.was_exploration ≡ false → IsGreedy cs w))
        ⊎ ((e : SelectError) × (select_with_dispatch_info F s c reg b a os ≡ fails e)
            × ((w : WorkerInfo) → ¬ Suitable reg b a os w))
  unfolding select_with_dispatch_info
  select_by_epsilon c reg b a os fin r =
      elim (Selection-cases (eligible_workers s.circuit_checker reg b a os)) [
        | inr (inl (e, f)) ↦
            inr (e, rw f, λ w. eligible_workers-none s.circuit_checker reg b a os e w f)
        | inr (inr f) ↦ absurd (eligible_workers-ne-panics s.circuit_checker reg b a os f)
        | inl (cs, f) ↦
            let some_worker : cs ≢ [] =
              λ z. eligible_workers-ne-nil s.circuit_checker reg b a os (f ∙ ap selected z) in
            let (w, info, e, m, shown, greedy) = choose_lem c cs fin r some_worker in
            let (suits, prefers) = eligible_workers-mem s.circuit_checker reg b a os cs f m in
            inl (w, info, cs, rw f e, f, suits, prefers, shown, greedy)
      ]

  -- An outcome changes the estimate of its worker alone, and that only for a named worker and a finite
  -- reward: the count goes up by one and the estimate moves by the difference over the new count.
  pub q_value-record_outcome :
      (id j : String) (reward : Carrier)
      → q_value F (record_outcome F id reward s) j ≡ (
          if str_eq id "" || (is_nan reward || is_inf reward)
          then q_value F s j
          else if str_eq id j
          then (learn F reward (new_arm F (lookup id s.values))).q
          else q_value F s j)
  unfolding q_value record_outcome
  q_value-record_outcome id j reward =
      ground (arith, lookup-insert id j (learn F reward (new_arm F (lookup id s.values))) s.values)
