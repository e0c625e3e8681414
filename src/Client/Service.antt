-- ===== src/Client/Service.antt =====
-- `Build` of internal/cli/build/build.go: the cache, the coordinator and the local compiler, in this
-- order. What the file system, the preprocessor, the store, the coordinator and the local compiler give
-- are arguments; what `Build` does to them is recorded. Logging and metrics are left out.
use hybridgrid.Prelude.{
  ℕ, String, Bool, true, false, not, ◌&&◌, Option, none, some, [], if◌then◌else◌, is_empty,
}
use Prim.Native.String.{◌++◌ as append}
use hybridgrid.Prelude.Int.{ℤ, pos, is_zero}
use hybridgrid.Registry.Types.{Architecture, arch_unspecified, arch_x86_64, arch_arm64, arch_armv7}
use hybridgrid.Prelude.Text.{points}
use hybridgrid.Cache.Key.{CompilationKey, hash_bytes}
use hybridgrid.Cache.Key
use hybridgrid.Compiler.Files.{Bytes}
use hybridgrid.Compiler.Args.{ParsedArgs}
use hybridgrid.Coordinator.Messages.{CompileResponse, Reply, replies, breaks}

pub record Service : Type 0 where
  pub has_cache : Bool
  pub has_client : Bool
  pub fallback_enabled : Bool

pub record Request : Type 0 where
  pub args : ParsedArgs
  pub target_arch : Architecture

pub record BuildResult : Type 0 where
  pub object_file : Bytes
  pub exit_code : ℤ
  pub stdout : String
  pub stderr : String
  pub cache_hit : Bool
  pub fallback : Bool
  pub fallback_reason : String
  pub worker_id : String

-- What the local compiler gives.
pub record LocalResult : Type 0 where
  pub object_code : Bytes
  pub exit_code : ℤ
  pub stdout : String
  pub stderr : String

-- What the calls of `Build` give: the source file, `GetBytes` of the cache, the preprocessor at its first
-- and at its second call, the attempts with preprocessed and with raw source, and the local compiler.
pub record World : Type 0 where
  pub source : Reply Bytes
  pub cached : Bytes → Option Bytes
  pub preprocessed : Reply Bytes
  pub preprocessed_again : Reply Bytes
  pub remote_preprocessed : Bytes → Reply CompileResponse
  pub remote_raw : Bytes → Reply CompileResponse
  pub local_compiler : Bytes → Reply LocalResult

-- What `Build` returns, what it stored in the cache, and whether it reported a hit.
pub record Outcome : Type 0 where
  pub result : Reply BuildResult
  pub stored : Option (Bytes × Bytes)
  pub reported_hit : Bool

unfoldable pub arch_name : Architecture → Bytes
arch_name arch_unspecified = points "ARCH_UNSPECIFIED"
arch_name arch_x86_64 = points "ARCH_X86_64"
arch_name arch_arm64 = points "ARCH_ARM64"
arch_name arch_armv7 = points "ARCH_ARMV7"

unfoldable pub no_result : String → Outcome
no_result text = record { result = breaks text; stored = none; reported_hit = false }

unfoldable pub hit_result : Bytes → BuildResult
hit_result object = record {
  object_file = object;
  exit_code = pos 0;
  stdout = "";
  stderr = "";
  cache_hit = true;
  fallback = false;
  fallback_reason = "";
  worker_id = "";
}

unfoldable pub remote_result : CompileResponse → BuildResult
remote_result resp = record {
  object_file = resp.object_file;
  exit_code = resp.exit_code;
  stdout = resp.stdout;
  stderr = resp.stderr;
  cache_hit = false;
  fallback = false;
  fallback_reason = "";
  worker_id = if is_zero resp.exit_code then resp.worker_id else "";
}

unfoldable pub local_result : String → LocalResult → BuildResult
local_result reason r = record {
  object_file = r.object_code;
  exit_code = r.exit_code;
  stdout = r.stdout;
  stderr = r.stderr;
  cache_hit = false;
  fallback = true;
  fallback_reason = reason;
  worker_id = "";
}

-- `PutBytes` of an object file that is not empty.
unfoldable pub kept_object : Service → Bytes → BuildResult → Option (Bytes × Bytes)
kept_object s key r =
    if s.has_cache && (is_zero r.exit_code && not (is_empty r.object_file))
    then some (key, r.object_file)
    else none

unfoldable pub finished : Service → Bytes → BuildResult → Outcome
unfolding kept_object
finished s key r = record { result = replies r; stored = kept_object s key r; reported_hit = false }

-- The local compiler, after its preprocessing.
unfoldable pub run_local : Service → Bytes → String → Reply LocalResult → Outcome
unfolding finished local_result no_result
run_local s key reason (replies r) = finished s key (local_result reason r)
run_local s key reason (breaks text) = no_result (append "local fallback failed: " text)

unfoldable pub prepare_local : Service → World → Bytes → String → Reply Bytes → Outcome
unfolding run_local no_result
prepare_local s w key reason (replies source) = run_local s key reason (w.local_compiler source)
prepare_local s w key reason (breaks text) =
    no_result (append "preprocessing for fallback failed: " text)

unfoldable pub fall_back : Service → World → Bytes → String → Outcome
unfolding prepare_local no_result
fall_back s w key reason =
    if s.fallback_enabled
    then prepare_local s w key reason
        (if s.has_client then w.preprocessed_again else w.preprocessed)
    else no_result "remote compilation failed and local fallback is disabled"

-- The result of the attempts: a response is final, whatever its exit code.
unfoldable pub after_remote : Service → World → Bytes → Reply CompileResponse → Outcome
unfolding finished remote_result fall_back
after_remote s w key (replies resp) = finished s key (remote_result resp)
after_remote s w key (breaks text) = fall_back s w key (append "remote error: " text)

-- The preprocessed source is sent, or the raw source if there is none.
unfoldable pub try_remote : World → Bytes → Reply Bytes → Reply CompileResponse
try_remote w raw (replies source) = w.remote_preprocessed source
try_remote w raw (breaks text) = w.remote_raw raw

unfoldable pub look_up : Service → World → Bytes → Option Bytes
look_up s w key = if s.has_cache then w.cached key else none

module _ (sum64 : Bytes → ℕ) where
  unfoldable pub generate_cache_key_raw : Request → Bytes → Bytes
  unfolding arch_name hash_bytes
  generate_cache_key_raw req source = Key.build sum64 (record {
    compiler = req.args.compiler;
    compiler_ver = [];
    target_arch = arch_name req.target_arch;
    flags = req.args.flags;
    defines = req.args.defines;
    source_hash = hash_bytes sum64 source;
  })

  unfoldable pub serve : Service → World → Bytes → Bytes → Option Bytes → Outcome
  unfolding hit_result after_remote try_remote fall_back
  serve s w key raw (some object) = record {
    result = replies (hit_result object);
    stored = none;
    reported_hit = s.has_client;
  }
  serve s w key raw none =
      if s.has_client
      then after_remote s w key (try_remote w raw w.preprocessed)
      else fall_back s w key "no coordinator connection"

  unfoldable pub build_source : Service → World → Request → Reply Bytes → Outcome
  unfolding no_result serve look_up
  build_source s w req (breaks text) = no_result (append "failed to read source file: " text)
  build_source s w req (replies raw) =
      let key = generate_cache_key_raw req raw in serve s w key raw (look_up s w key)

  unfoldable pub build : Service → World → Request → Outcome
  unfolding build_source
  build s w req = build_source s w req w.source
