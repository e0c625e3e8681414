-- ===== src/Scheduler/Simple/Laws.antt =====
-- What `Select` of `SimpleScheduler` in internal/coordinator/scheduler/scheduler.go guarantees.
use hybridgrid.Prelude.{
  ℕ, ◌+◌, ◌*◌, ◌%◌, ◌<◌, ◌≡◌, ◌∙◌, ap, ◌⊎◌, inl, inr, ◌↔◌, String, true, false, some, List, [], ◌∷◌,
  length, get_elem?, get_elem?-mem, arith, Memᴰ, Bool-cases, keep, mem-keep, is_empty,
}
use native.Mathlib.Nat.{mod-lt, mod-eq_of_lt}
use hybridgrid.Prelude.Int.{half64}
use hybridgrid.Registry.Types.{Architecture, BuildType, WorkerInfo, is_idle, is_unhealthy}
use hybridgrid.Scheduler.Eligible.{
  RegistryView, SelectError, selected, fails, no_matching_workers, matching_workers, has_room,
  admits_relaxed,
}
use hybridgrid.Scheduler.Admission.{
  Selection-cases, Suitable, matching_workers-mem, matching_workers-none,
  matching_workers-ne-panics, admits_relaxed_iff, empty-no-mem,
}
use hybridgrid.Scheduler.Simple.{
  is_available, available_workers, pick, offered, round_robin, select,
}

length-pos {ℓ} : {A : Type ℓ} (xs : List A) → is_empty xs ≡ false → 0 < length xs
length-pos [] h = cc
length-pos (x ∷ xs) h = omega arith

-- Below 2^63 the counter picks the worker at its remainder.
pick_lem :
    (idx : ℕ) (cs : List WorkerInfo)
    → idx < half64
    → is_empty cs ≡ false
    → (w : WorkerInfo) × (pick idx cs ≡ selected w)
      × Memᴰ w cs
      × (get_elem? cs (idx % length cs) ≡ some w)
unfolding pick
pick_lem idx cs h k =
    let (w, e, m) = get_elem?-mem cs (idx % length cs) (mod-lt idx (length-pos cs k)) in
    (w, ground arith, m, e)

is_available_iff :
    (w : WorkerInfo) → (is_available w ≡ true) ↔ ((has_room w ≡ true) × (is_idle w.state ≡ true))
unfolding is_available
is_available_iff w = ground arith

idle-healthy : (w : WorkerInfo) → is_idle w.state ≡ true → is_unhealthy w.state ≡ false
unfolding is_idle is_unhealthy
idle-healthy w h = ground arith

module _ (ws : List WorkerInfo) {w : WorkerInfo} where
  available_workers-mem :
      Memᴰ w (available_workers ws)
      → Memᴰ w ws
        × (is_unhealthy w.state ≡ false)
        × (has_room w ≡ true)
        × (is_idle w.state ≡ false
            → (x : WorkerInfo) → Memᴰ x ws
            → has_room x ≡ true
            → is_idle x.state ≡ false)
  unfolding available_workers
  available_workers-mem m = elim (Bool-cases (is_empty (keep is_available ws))) [
    | inl nobody ↦
        let relaxed : Memᴰ w (keep admits_relaxed ws) = rw (nobody, available_workers) at m in
        let (there, passes) = (mem-keep admits_relaxed ws).0 relaxed in
        let (healthy, room) = (admits_relaxed_iff w).0 passes in
        (
          there,
          healthy,
          room,
          λ _ x mx rx. elim (Bool-cases (is_idle x.state)) [
            | inl free ↦ absurd (
                empty-no-mem _ nobody
                  ((mem-keep is_available ws).1 (mx, (is_available_iff x).1 (rx, free))))
            | inr taken ↦ taken
          ],
        )
    | inr somebody ↦
        let free : Memᴰ w (keep is_available ws) = rw (somebody, available_workers) at m in
        let (there, passes) = (mem-keep is_available ws).0 free in
        let (room, is_free) = (is_available_iff w).0 passes in
        (there, idle-healthy w is_free, room, λ not_free x mx rx. absurd (ground arith))
  ]

  available_workers-none :
      is_empty (available_workers ws) ≡ true
      → Memᴰ w ws
      → is_unhealthy w.state ≡ false
      → has_room w ≡ false
  unfolding available_workers
  available_workers-none e m healthy = elim (Bool-cases (has_room w)) [
    | inr full ↦ full
    | inl room ↦
        let nobody : is_empty (keep admits_relaxed ws) ≡ true = ground arith in
        absurd (
          empty-no-mem _ nobody
            ((mem-keep admits_relaxed ws).1 (m, (admits_relaxed_iff w).1 (healthy, room))))
  ]

-- Below 2^63 the counter does not wrap.
round_robin-selected :
    (counter : ℕ) (cs : List WorkerInfo) (w : WorkerInfo)
    → counter + 1 < half64
    → pick (counter + 1) cs ≡ selected w
    → round_robin counter (selected cs) ≡ (counter + 1, selected w)
unfolding round_robin
round_robin-selected counter cs w h e =
    let same : (counter + 1) % (2 * half64) ≡ counter + 1 = mod-eq_of_lt (omega arith) in
    rw (same, round_robin) (rw e)

module _ (reg : RegistryView) (b : BuildType) (a : Architecture) (os : String) (counter : ℕ) where
  -- An idle worker is preferred.
  abbrev pub PrefersIdle : WorkerInfo → Type 0
  PrefersIdle w =
      is_idle w.state ≡ false → (x : WorkerInfo) → Suitable reg b a os x → is_idle x.state ≡ false

  -- The workers that are offered are suitable; there is none exactly where the choice fails.
  pub offered_lem :
      ((cs : List WorkerInfo) × (offered reg b a os ≡ selected cs)
        × (is_empty cs ≡ false)
        × ((w : WorkerInfo) → Memᴰ w cs → Suitable reg b a os w × PrefersIdle w))
      ⊎ ((e : SelectError) × (offered reg b a os ≡ fails e)
          × ((w : WorkerInfo) → ¬ Suitable reg b a os w))
  unfolding offered
  offered_lem = elim (Selection-cases (matching_workers reg b a os)) [
    | inr (inl (e, f)) ↦ inr (e, rw (f, offered), λ w s. matching_workers-none reg b a os e w f s.0)
    | inr (inr f) ↦ absurd (matching_workers-ne-panics reg b a os f)
    | inl (ws, f) ↦
        let back : (x : WorkerInfo) → Suitable reg b a os x → Memᴰ x ws =
          λ x s. (matching_workers-mem reg b a os ws f).1 s.0 in
        elim (Bool-cases (is_empty (available_workers ws))) [
          | inl nobody ↦ inr (
            no_matching_workers,
            rw (f, offered) (rw nobody),
            λ w s. full w s (available_workers-none ws nobody (back w s) s.1),
          )
          | inr somebody ↦ inl (
            available_workers ws,
            rw (f, offered) (rw somebody),
            somebody,
            λ w m.
                let (there, healthy, room, idle_first) = available_workers-mem ws m in
                (
                  (((matching_workers-mem reg b a os ws f).0 there), healthy, room),
                  λ i x s. idle_first i x (back x s) s.2,
                ),
          )
        ]
  ]
    where
      full : (w : WorkerInfo) → Suitable reg b a os w → has_room w ≡ false → ⊥
      full w s e = cc

  -- Before the counter reaches 2^63 a selection does not panic. It fails, and leaves the counter alone,
  -- exactly when no listed worker fits the client's system, is not unhealthy and has room. Otherwise it
  -- adds one to the counter and returns such a worker, an idle one if there is an idle one.
  pub select_in_turn :
      counter + 1 < half64
      → ((w : WorkerInfo) × (select reg b a os counter ≡ (counter + 1, selected w))
          × Suitable reg b a os w
          × PrefersIdle w)
        ⊎ ((e : SelectError) × (select reg b a os counter ≡ (counter, fails e))
            × ((w : WorkerInfo) → ¬ Suitable reg b a os w))
  unfolding select
  select_in_turn h = elim offered_lem [
    | inr (e, f, nobody) ↦ inr (e, ap (round_robin counter) f, nobody)
    | inl (cs, f, some_worker, suits) ↦
        let (w, e, m, at) = pick_lem (counter + 1) cs h some_worker in
        let (s, idle_first) = suits w m in
        inl (w, ap (round_robin counter) f ∙ round_robin-selected counter cs w h e, s, idle_first)
  ]
