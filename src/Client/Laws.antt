-- ===== src/Client/Laws.antt =====
-- What `Build` of internal/cli/build/build.go stores, and when it compiles locally.
use hybridgrid.Prelude.{
  ℕ, ◌≡◌, refl, sym, ap, subst, ◌∙◌, Bool, true, false, not, ◌&&◌, Option, none, some, String,
  is_empty, if◌then◌else◌, if_both,
}
use hybridgrid.Prelude.Int.{is_zero}
use hybridgrid.Compiler.Files.{Bytes}
use hybridgrid.Coordinator.Messages.{CompileResponse, Reply, replies, breaks}
use hybridgrid.Client.Service.{
  Service, Request, BuildResult, LocalResult, World, Outcome, no_result, remote_result,
  local_result, kept_object, finished, run_local, prepare_local, fall_back, after_remote, look_up,
  generate_cache_key_raw, serve, build_source, build, try_remote,
}

-- A result that went into the cache: not a hit, with exit code 0 and an object file, which is what is stored.
pub record Stored (object : Bytes) (o : Outcome) : Type 0 where
  pub built : BuildResult
  pub result : o.result ≡ replies built
  pub succeeded : is_zero built.exit_code ≡ true
  pub fresh : built.cache_hit ≡ false
  pub same : built.object_file ≡ object
  pub full : is_empty object ≡ false

abbrev Sound : Bytes → Outcome → Type 0
Sound key o = (k object : Bytes) → o.stored ≡ some (k, object) → (k ≡ key) × Stored object o

kept :
    (b : Bool) (a c : Bytes × Bytes) → (if b then some a else none) ≡ some c → (b ≡ true) × (a ≡ c)
kept true a c h = (refl, cc)
kept false a c h = absurd cc

both_hold : (a b c : Bool) → a && (b && not c) ≡ true → (b ≡ true) × (c ≡ false)
both_hold true true false h = (refl, refl)
both_hold true true true h = absurd cc
both_hold true false c h = absurd cc
both_hold false b c h = absurd cc

finished-Sound :
    (s : Service) (key : Bytes) (r : BuildResult)
    → r.cache_hit ≡ false
    → Sound key (finished s key r)
unfolding finished kept_object
finished-Sound s key r miss k object h =
    let (found, same) =
      kept (s.has_cache && (is_zero r.exit_code && not (is_empty r.object_file)))
        (key, r.object_file) (k, object) h in
    let (zero_code, not_empty) =
      both_hold s.has_cache (is_zero r.exit_code) (is_empty r.object_file) found in
    let same_object : object ≡ r.object_file = cc in
    (
      cc,
      record {
        built = r;
        result = refl;
        succeeded = zero_code;
        fresh = miss;
        same = sym same_object;
        full = ap is_empty same_object ∙ not_empty;
      },
    )

no_result-Sound : (key : Bytes) (text : String) → Sound key (no_result text)
unfolding no_result
no_result-Sound key text k object h = cc

run_local-Sound :
    (s : Service) (key : Bytes) (reason : String) (r : Reply LocalResult)
    → Sound key (run_local s key reason r)
unfolding run_local local_result
run_local-Sound s key reason (replies r) = finished-Sound s key (local_result reason r) refl
run_local-Sound s key reason (breaks text) = no_result-Sound key _

prepare_local-Sound :
    (s : Service) (w : World) (key : Bytes) (reason : String) (r : Reply Bytes)
    → Sound key (prepare_local s w key reason r)
unfolding prepare_local
prepare_local-Sound s w key reason (replies source) =
    run_local-Sound s key reason (w.local_compiler source)
prepare_local-Sound s w key reason (breaks text) = no_result-Sound key _

fall_back-Sound :
    (s : Service) (w : World) (key : Bytes) (reason : String) → Sound key (fall_back s w key reason)
unfolding fall_back
fall_back-Sound s w key reason =
    if_both (Sound key) s.fallback_enabled _ _ (prepare_local-Sound s w key reason _)
      (no_result-Sound key _)

after_remote-Sound :
    (s : Service) (w : World) (key : Bytes) (r : Reply CompileResponse)
    → Sound key (after_remote s w key r)
unfolding after_remote remote_result
after_remote-Sound s w key (replies resp) = finished-Sound s key (remote_result resp) refl
after_remote-Sound s w key (breaks text) = fall_back-Sound s w key _

module _ (sum64 : Bytes → ℕ) where
  serve-Sound :
      (s : Service) (w : World) (key raw : Bytes) (o : Option Bytes)
      → Sound key (serve sum64 s w key raw o)
  unfolding serve
  serve-Sound s w key raw (some object) = λ k b h. cc
  serve-Sound s w key raw none =
      if_both (Sound key) s.has_client _ _ (after_remote-Sound s w key _)
        (fall_back-Sound s w key _)

  -- Whatever is stored in the cache stands under the key of the request and its source, and is the object
  -- file, not empty, of a result with exit code 0 that did not come from the cache.
  pub build-Stored :
      (s : Service) (w : World) (req : Request) (raw k object : Bytes)
      → w.source ≡ replies raw
      → (build sum64 s w req).stored ≡ some (k, object)
      → (k ≡ generate_cache_key_raw sum64 req raw) × Stored object (build sum64 s w req)
  unfolding build build_source
  build-Stored s w req raw k object e h =
      let key : Bytes = generate_cache_key_raw sum64 req raw in
      subst (λ r. Sound key (build_source sum64 s w req r)) (sym e)
        (serve-Sound s w key raw (look_up s w key)) k object h

  -- After a miss, a response of the coordinator ends `Build`, whatever its exit code.
  pub build-answered :
      (s : Service) (w : World) (req : Request) (raw : Bytes) (resp : CompileResponse)
      → w.source ≡ replies raw
      → s.has_client ≡ true
      → look_up s w (generate_cache_key_raw sum64 req raw) ≡ none
      → try_remote w raw w.preprocessed ≡ replies resp
      → build sum64 s w req ≡ finished s (generate_cache_key_raw sum64 req raw) (remote_result resp)
  unfolding build build_source serve after_remote
  build-answered s w req raw resp e client miss answer =
      let key : Bytes = generate_cache_key_raw sum64 req raw in
      let served : (if s.has_client
            then after_remote s w key (try_remote w raw w.preprocessed)
            else fall_back s w key "no coordinator connection")
          ≡ after_remote s w key (try_remote w raw w.preprocessed) =
        rw client in
      ap (build_source sum64 s w req) e
      ∙ (ap (serve sum64 s w key raw) miss ∙ (served ∙ ap (after_remote s w key) answer))
