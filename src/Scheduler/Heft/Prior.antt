-- ===== src/Scheduler/Heft/Prior.antt =====
-- The prior of a cold worker in internal/coordinator/scheduler/heft.go.
use hybridgrid.Prelude.{◌≡◌, ◌≢◌, refl, eq_iff, true, none, some, arith}
use hybridgrid.Prelude.Int.{pos, ltb_ℤ, quot_ℤ}
use hybridgrid.Prelude.Float.{Float}
use hybridgrid.Prelude.Maps.{lookup, lookup-insert_self}
use hybridgrid.Metrics.Ewma.{Ewma, new_ewma, update, blend}
use hybridgrid.Registry.Types.{WorkerInfo}
use hybridgrid.Scheduler.Eligible.{RegistryView}
use hybridgrid.Scheduler.Heft.{
  HeftScheduler, Loop, wbar_locked, prior, warmed, consider, record_outcome,
}

module _ (F : Float) (s : HeftScheduler F) (l : Loop F) (w : WorkerInfo) where
  -- The scheduler after the round of the selection loop for `w`.
  abbrev pub warm : HeftScheduler F
  warm = record s { wbar = (consider F s.alpha w l).wbar }

  warmed-cold :
      lookup w.id l.wbar ≡ none
      → (warmed F s.alpha l.wbar w).alpha ≡ (new_ewma F s.alpha).alpha
        × ((warmed F s.alpha l.wbar w).value ≡ prior F w)
        × ((warmed F s.alpha l.wbar w).init ≡ true)
  unfolding warmed wbar_locked update new_ewma
  warmed-cold cold = rw (cold, wbar_locked) (refl, refl, refl)

  update-warmed :
      (ms : F.Carrier)
      → lookup w.id l.wbar ≡ none
      → (update F ms (warmed F s.alpha l.wbar w)).value
        ≡ blend F (new_ewma F s.alpha).alpha ms (prior F w)
  unfolding update
  update-warmed ms cold = ground (arith, warmed-cold cold)

  lookup-warm : lookup w.id warm.wbar ≡ some (warmed F s.alpha l.wbar w)
  unfolding consider
  lookup-warm = lookup-insert_self w.id (warmed F s.alpha l.wbar w) l.wbar

  -- The first observation of a worker that a selection had considered cold does not replace the prior:
  -- the average is then the blend of the observation with the prior, as if the prior had been observed.
  pub record_outcome-consider :
      (reg : RegistryView) (v : WorkerInfo)
      → lookup w.id l.wbar ≡ none
      → w.id ≢ ""
      → reg.find w.id ≡ some v
      → ltb_ℤ (pos 0) v.avg_compile_time ≡ true
      → (e : Ewma F) × (lookup w.id (record_outcome F reg w.id warm).wbar ≡ some e)
        × (e.value
            ≡ blend F
                (new_ewma F s.alpha).alpha
                (F.of_int (quot_ℤ v.avg_compile_time 1000000))
                (prior F w))
  unfolding record_outcome wbar_locked
  record_outcome-consider reg v cold named found ran =
      let ms = F.of_int (quot_ℤ v.avg_compile_time 1000000) in
      let e = update F ms (warmed F s.alpha l.wbar w) in
      (
        e,
        ground (arith, eq_iff w.id "", lookup-warm, lookup-insert_self w.id e warm.wbar),
        update-warmed ms cold,
      )
