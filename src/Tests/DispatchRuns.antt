-- ===== src/Tests/DispatchRuns.antt =====
-- A selection on a registry.
use hybridgrid.Prelude.{◌≡◌, refl, keep}
use hybridgrid.Prelude.Float.Fixed.{fixed}
use hybridgrid.Registry.Types.{arch_x86_64, build_type_cpp, arch_eq, is_unhealthy}
use hybridgrid.Registry.Capability.{matches_capability, arch_matches, build_matches, has_cpp}
use hybridgrid.Registry.Table.{is_healthy, list_by_capability}
use hybridgrid.Scheduler.Eligible.{
  selected, view, eligible_workers, matching_workers, filter_by_os, runs_on, candidates, admits,
  circuit_open, has_room, parallel_limit,
}
use hybridgrid.Scheduler.P2c.{select, choose}
use hybridgrid.Scheduler.P2c.Registered.{IsDispatchable, select-IsDispatchable}
use hybridgrid.Tests.Sample.{bob, office}
use hybridgrid.Tests.RegistryRuns.{office-IsValid}
use hybridgrid.Tests.SchedulerRuns.{tracker, open_for_alice, no_draws, no_draws-AreInRange}

bob_is_selected :
    select fixed tracker open_for_alice no_draws
      (view 120 office)
      build_type_cpp
      arch_x86_64
      "linux"
    ≡ selected bob
unfolding select choose eligible_workers matching_workers filter_by_os runs_on candidates admits
    circuit_open has_room parallel_limit view list_by_capability is_healthy matches_capability
    arch_matches build_matches has_cpp arch_eq is_unhealthy keep
bob_is_selected = refl

select-IsDispatchable_example : IsDispatchable 120 build_type_cpp arch_x86_64 "linux" office bob
select-IsDispatchable_example =
    select-IsDispatchable fixed tracker open_for_alice no_draws 2 120 build_type_cpp arch_x86_64
      "linux" office bob no_draws-AreInRange office-IsValid bob_is_selected
