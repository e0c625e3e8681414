-- ===== src/Coordinator/BuildCache.antt =====
-- The caches of `handleFlutterBuild` and `handleUnityBuild` in internal/coordinator/server/grpc.go.
use hybridgrid.Prelude.{
  ℕ, String, str_eq, eq_iff, ◌≡◌, refl, ap, ◌∙◌, Bool, true, false, ◌&&◌, Option, none, some, arith,
  is_empty, if◌then◌else◌,
}
use hybridgrid.Prelude.Int.{pos}
use hybridgrid.Prelude.Maps.{lookup, lookup-insert}
use hybridgrid.Registry.Types.{TargetPlatform, WorkerInfo}
use hybridgrid.Coordinator.Messages.{
  BuildRequest, BuildResponse, Reply, replies, breaks, status_completed,
}
use hybridgrid.Coordinator.Server.{
  kind_name, Server, Builds, CacheEntry, Kind, flutter, unity, builds_of, set_builds, get_cache,
  set_cache, entry_of, up, notify, leave_worker, leave_queue,
}
use hybridgrid.Coordinator.Tasks.{Clock, start_task, finish_task}
use hybridgrid.Coordinator.Build.{
  build_report, cached_build, count_hit, answer_hit, count_miss, count_build, give_up, remember,
  run_on, reach, place, serve, handle_build,
}
use hybridgrid.Coordinator.Placement.{select_worker}

unfoldable pub same_kind : Kind → Kind → Bool
same_kind flutter flutter = true
same_kind unity unity = true
same_kind _ _ = false

itself : (kind : Kind) (key : String) → (same_kind kind kind && str_eq key key) ≡ true
unfolding same_kind
itself flutter key = (eq_iff key key).1 refl
itself unity key = (eq_iff key key).1 refl

-- What a cache holds after a reply to a request for `key`.
abbrev pub kept : Kind → String → Reply BuildResponse → Kind → String → Server → Option CacheEntry
kept kind key (breaks text) k j s = get_cache k j s
kept kind key (replies resp) k j s =
    if is_empty resp.artifacts
    then get_cache k j s
    else if same_kind kind k && str_eq key j
    then some (entry_of resp)
    else get_cache k j s

get_cache-set_builds :
    (kind k : Kind) (b : Builds) (j : String) (s : Server)
    → b.cache ≡ (builds_of kind s).cache
    → get_cache k j (set_builds kind b s) ≡ get_cache k j s
unfolding get_cache set_builds builds_of
get_cache-set_builds flutter flutter b j s e = ap (lookup j) e
get_cache-set_builds flutter unity b j s e = refl
get_cache-set_builds unity flutter b j s e = refl
get_cache-set_builds unity unity b j s e = ap (lookup j) e

get_cache-set_cache :
    (kind k : Kind) (key j : String) (resp : BuildResponse) (s : Server)
    → get_cache k j (set_cache kind key resp s)
      ≡ (if same_kind kind k && str_eq key j then some (entry_of resp) else get_cache k j s)
unfolding get_cache set_cache set_builds builds_of same_kind
get_cache-set_cache flutter flutter key j resp s =
    lookup-insert key j (entry_of resp) s.flutter.cache
get_cache-set_cache flutter unity key j resp s = refl
get_cache-set_cache unity flutter key j resp s = refl
get_cache-set_cache unity unity key j resp s = lookup-insert key j (entry_of resp) s.unity.cache

get_cache-remember :
    (kind k : Kind) (key j : String) (reply : Reply BuildResponse) (s : Server)
    → get_cache k j (remember kind key reply s) ≡ kept kind key reply k j s
unfolding remember
get_cache-remember kind k key j (breaks text) s = refl
get_cache-remember kind k key j (replies resp) s =
    ground (arith, get_cache-set_cache kind k key j resp s)

get_cache-count_miss :
    (kind k : Kind) (j : String) (s : Server) → get_cache k j (count_miss kind s) ≡ get_cache k j s
unfolding count_miss get_cache builds_of set_builds
get_cache-count_miss flutter flutter j s = refl
get_cache-count_miss flutter unity j s = refl
get_cache-count_miss unity flutter j s = refl
get_cache-count_miss unity unity j s = refl

get_cache-count_build :
    (kind k : Kind) (j : String) (s : Server) → get_cache k j (count_build kind s) ≡ get_cache k j s
unfolding count_build get_cache builds_of set_builds
get_cache-count_build flutter flutter j s = refl
get_cache-count_build flutter unity j s = refl
get_cache-count_build unity flutter j s = refl
get_cache-count_build unity unity j s = refl

get_cache-count_hit :
    (kind k : Kind) (j : String) (s : Server) → get_cache k j (count_hit kind s) ≡ get_cache k j s
unfolding count_hit get_cache builds_of set_builds
get_cache-count_hit flutter flutter j s = refl
get_cache-count_hit flutter unity j s = refl
get_cache-count_hit unity flutter j s = refl
get_cache-count_hit unity unity j s = refl

-- Parts of a handler that leave both tables alone.
abbrev SameCaches : Server → Server → Type 0
SameCaches s s' = (s.flutter ≡ s'.flutter) × (s.unity ≡ s'.unity)

SameCaches-get_cache :
    (k : Kind) (j : String) (s s' : Server) → SameCaches s s' → get_cache k j s ≡ get_cache k j s'
unfolding get_cache builds_of
SameCaches-get_cache flutter j s s' e = ap (λ b. lookup j (Builds.cache b)) e.0
SameCaches-get_cache unity j s s' e = ap (λ b. lookup j (Builds.cache b)) e.1

select_worker-count_miss :
    (kind : Kind) (now : ℕ) (p : TargetPlatform) (s : Server)
    → select_worker kind now p (count_miss kind s) ≡ select_worker kind now p s
unfolding select_worker count_miss set_builds
select_worker-count_miss flutter now p s = refl
select_worker-count_miss unity now p s = refl

module _ (dial : String → Option String) (call : String → BuildRequest → Reply BuildResponse)
    (kind : Kind) (key : String) (t : Clock) (req : BuildRequest) where
  abbrev pub when_reached : WorkerInfo → Option String → Server → Kind → String → Option CacheEntry
  when_reached w (some text) s k j = get_cache k j s
  when_reached w none s k j = kept kind key (call w.address req) k j s

  abbrev pub when_placed : Option WorkerInfo → Server → Kind → String → Option CacheEntry
  when_placed none s k j = get_cache k j s
  when_placed (some w) s k j = when_reached w (dial w.address) s k j

  abbrev pub when_served : Option CacheEntry → Server → Kind → String → Option CacheEntry
  when_served (some entry) s k j = get_cache k j s
  when_served none s k j = when_placed (select_worker kind t.selecting req.target_platform s) s k j

  kept-same :
      (reply : Reply BuildResponse) (k : Kind) (j : String) (s s' : Server)
      → get_cache k j s ≡ get_cache k j s'
      → kept kind key reply k j s ≡ kept kind key reply k j s'
  kept-same (breaks text) k j s s' e = e
  kept-same (replies resp) k j s s' e = rw e

  run_on_lem :
      (w : WorkerInfo) (k : Kind) (j : String) (s : Server)
      → get_cache k j (run_on dial call kind key t req w s).1
        ≡ kept kind key (call w.address req) k j s
  unfolding run_on leave_worker finish_task start_task notify
  run_on_lem w k j s =
      let reply = call w.address req in
      let booked = start_task (kind_name kind) req.task_id w t (count_build kind s) in
      let finished = finish_task (kind_name kind) req.task_id w t (build_report reply) booked in
      SameCaches-get_cache k j (leave_worker w.id (remember kind key reply finished)) _ (refl, refl)
      ∙ get_cache-remember kind k key j reply finished
      ∙ kept-same reply k j finished s (
          SameCaches-get_cache k j finished (count_build kind s) (refl, refl)
          ∙ get_cache-count_build kind k j s)

  reach_lem :
      (w : WorkerInfo) (o : Option String) (s : Server) (k : Kind) (j : String)
      → get_cache k j (reach dial call kind key t req w o s).1 ≡ when_reached w o s k j
  unfolding reach
  reach_lem w (some text) s k j = refl
  reach_lem w none s k j = run_on_lem w k j s

  place_lem :
      (o : Option WorkerInfo) (s : Server) (k : Kind) (j : String)
      → get_cache k j (place dial call kind key t req o s).1 ≡ when_placed o s k j
  unfolding place give_up notify
  place_lem none s k j = SameCaches-get_cache k j (give_up kind req t s) s (refl, refl)
  place_lem (some w) s k j = reach_lem w (dial w.address) s k j

  placed-miss :
      (o : Option WorkerInfo) (s : Server) (k : Kind) (j : String)
      → when_placed o (count_miss kind s) k j ≡ when_placed o s k j
  placed-miss none s k j = get_cache-count_miss kind k j s
  placed-miss (some w) s k j = reached w (dial w.address)
    where
      reached :
          (w : WorkerInfo) (o : Option String)
          → when_reached w o (count_miss kind s) k j ≡ when_reached w o s k j
      reached w (some text) = get_cache-count_miss kind k j s
      reached w none = kept-same (call w.address req) k j _ s (get_cache-count_miss kind k j s)

  serve_lem :
      (o : Option CacheEntry) (s : Server) (k : Kind) (j : String)
      → get_cache k j (serve dial call kind key t req o s).1 ≡ when_served o s k j
  unfolding serve answer_hit notify leave_queue
  serve_lem (some entry) s k j =
      SameCaches-get_cache k j (answer_hit kind req t entry s) (count_hit kind s) (refl, refl)
      ∙ get_cache-count_hit kind k j s
  serve_lem none s k j =
      let entered = count_miss kind s in
      let choice = select_worker kind t.selecting req.target_platform entered in
      SameCaches-get_cache k j (leave_queue (place dial call kind key t req choice entered).1) _
        (refl, refl)
      ∙ place_lem choice entered k j
      ∙ placed-miss choice s k j
      ∙ ap (λ o. when_placed o s k j)
          (select_worker-count_miss kind t.selecting req.target_platform s)

  -- A request changes one entry at most: that of its own kind and key, and only when it was not cached, a
  -- worker was selected and reached, and its response had artifacts, whatever its status.
  pub get_cache-handle_build :
      (s : Server) (k : Kind) (j : String)
      → get_cache k j (handle_build dial call kind key t req s).1
        ≡ when_served (get_cache kind key s) s k j
  unfolding handle_build
  get_cache-handle_build s k j = serve_lem (get_cache kind key s) s k j

  -- The counters after an answer from the cache.
  count_hit-counters :
      (k : Kind) (s : Server)
      → (count_hit k s).counters ≡ record s.counters {
        cache_hits = up s.counters.cache_hits;
        total_tasks = up s.counters.total_tasks;
        success_tasks = up s.counters.success_tasks;
      }
  unfolding count_hit set_builds
  count_hit-counters flutter s = refl
  count_hit-counters unity s = refl

  count_hit-registry : (k : Kind) (s : Server) → (count_hit k s).registry ≡ s.registry
  unfolding count_hit set_builds
  count_hit-registry flutter s = refl
  count_hit-registry unity s = refl

  -- A build that was not cached, was placed on a worker that could be reached, and came back with artifacts
  -- is remembered: the next request of that kind with the same key is answered COMPLETED with exit
  -- code 0 and marked as cached, with the artifacts, the output and the build time of the first response,
  -- whatever its status and exit code. That counts as a hit, in the total and as a success, and the registry
  -- does not change. Every other entry of both caches is as it was.
  pub handle_build-handle_build :
      (s : Server) (w : WorkerInfo) (resp : BuildResponse) (t' : Clock) (req' : BuildRequest)
      → get_cache kind key s ≡ none
      → select_worker kind t.selecting req.target_platform s ≡ some w
      → dial w.address ≡ none
      → call w.address req ≡ replies resp
      → is_empty resp.artifacts ≡ false
      → let s' = (handle_build dial call kind key t req s).1 in
        let (again, s'') = handle_build dial call kind key t' req' s' in
        (again ≡ record {
          status = status_completed;
          artifacts = resp.artifacts;
          artifact_list = resp.artifact_list;
          exit_code = pos 0;
          stdout = resp.stdout;
          stderr = resp.stderr;
          build_time_ms = resp.build_time_ms;
          from_cache = true;
        })
        × (s''.counters ≡ record s'.counters {
          cache_hits = up s'.counters.cache_hits;
          total_tasks = up s'.counters.total_tasks;
          success_tasks = up s'.counters.success_tasks;
        })
        × (s''.registry ≡ s'.registry)
        × ((k : Kind) (j : String)
            → (same_kind kind k && str_eq key j) ≡ false
            → get_cache k j s' ≡ get_cache k j s)
  unfolding handle_build serve cached_build entry_of answer_hit notify
  handle_build-handle_build s w resp t' req' miss chosen connected answered full =
      let law : (k : Kind) (j : String)
          → get_cache k j (handle_build dial call kind key t req s).1
            ≡ (if same_kind kind k && str_eq key j then some (entry_of resp) else get_cache k j s) =
        λ k j. get_cache-handle_build s k j ∙ rw (miss, chosen, connected, answered, full) refl in
      let s' = (handle_build dial call kind key t req s).1 in
      let found : get_cache kind key s' ≡ some (entry_of resp) =
        law kind key ∙ rw (itself kind key) refl in
      let again : handle_build dial call kind key t' req' s'
          ≡ (cached_build (entry_of resp), answer_hit kind req' t' (entry_of resp) s') =
        ap (λ o. serve dial call kind key t' req' o s') found in
      (
        ap (λ x. x.0) again,
        ap (λ x. Server.counters x.1) again ∙ count_hit-counters kind s',
        ap (λ x. Server.registry x.1) again ∙ count_hit-registry kind s',
        λ k j other. law k j ∙ rw other refl,
      )
