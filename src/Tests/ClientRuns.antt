-- ===== src/Tests/ClientRuns.antt =====
-- A client that builds one file: with a coordinator that answers at the second call, and with one that
-- has no worker.
use hybridgrid.Prelude.{
  ℕ, zero, suc, ◌≡◌, refl, String, true, false, Option, none, some, [], ◌∷◌, arith, length,
}
use hybridgrid.Prelude.Int.{pos}
use hybridgrid.Prelude.Float.Fixed.{fixed}
use hybridgrid.Registry.Types.{arch_x86_64}
use hybridgrid.Scheduler.Eligible.{no_workers}
use hybridgrid.Compiler.Files.{Bytes, compiler_gcc}
use hybridgrid.Coordinator.Messages.{
  CompileResponse, status_completed, Reply, replies, breaks, Answer, answers,
}
use hybridgrid.Coordinator.Compile.{compile, error_text}
use hybridgrid.Coordinator.Server.{new}
use hybridgrid.Client.Remote.{is_retryable_error, compile_remote}
use hybridgrid.Client.Retrying.{Tried, compile_remote_lem}
use hybridgrid.Client.Service.{
  Service, Request, World, LocalResult, build, generate_cache_key_raw, build_source, serve, look_up,
  try_remote, after_remote, finished, kept_object, remote_result,
}
use hybridgrid.Client.Laws.{Stored, build-Stored}
use hybridgrid.Client.Unplaced.{build-compile-fails}
use hybridgrid.Tests.CoordinatorRuns.{
  clock, request, default_scheduler, no_log, forward, empty_server, nobody_is_chosen,
}

abbrev compiled : CompileResponse
compiled = record {
  status = status_completed;
  object_file = 7 ∷ [];
  exit_code = pos 0;
  stdout = "";
  stderr = "";
  compilation_time_ms = pos 1500;
  queue_time_ms = pos 0;
  worker_id = "bob";
  from_cache = false;
}

-- The first call fails, every later one is answered.
abbrev call : ℕ → Reply CompileResponse
call zero = breaks "connection refused"
call (suc k) = replies compiled

abbrev never_done : ℕ → Option String
never_done k = none

abbrev numeral : ℕ → String
numeral k = "3"

compile_remote_lem_example :
    Tried numeral call never_done 3 0
      (compile_remote numeral call never_done (pos 3) (pos 100000000))
compile_remote_lem_example = compile_remote_lem numeral call never_done (pos 3) (pos 100000000)

abbrev sum64 : Bytes → ℕ
sum64 bytes = length bytes

abbrev service : Service
service = record { has_cache = true; has_client = true; fallback_enabled = true }

abbrev build_request : Request
build_request = record {
  args = record {
    compiler = 103 ∷ [];
    compiler_type = compiler_gcc;
    input_files = [];
    output_file = [];
    include_dirs = [];
    defines = [];
    flags = [];
    is_compile_only = true;
    is_preprocess = false;
    is_link = false;
    target_arch = [];
    language = [];
    standard = [];
    optimization = [];
  };
  target_arch = arch_x86_64;
}

abbrev here : LocalResult
here = record { object_code = 8 ∷ []; exit_code = pos 0; stdout = ""; stderr = "" }

abbrev world : World
world = record {
  source = replies (1 ∷ []);
  cached = λ key. none;
  preprocessed = replies (1 ∷ 2 ∷ []);
  preprocessed_again = replies (1 ∷ 2 ∷ []);
  remote_preprocessed =
      λ source. (compile_remote numeral call never_done (pos 3) (pos 100000000)).reply;
  remote_raw = λ source. breaks "unavailable";
  local_compiler = λ source. replies here;
}

second_call :
    (compile_remote numeral call never_done (pos 3) (pos 100000000)).reply ≡ replies compiled
unfolding compile_remote is_retryable_error
second_call = refl

stored_object :
    (build sum64 service world build_request).stored
    ≡ some (generate_cache_key_raw sum64 build_request (1 ∷ []), 7 ∷ [])
unfolding build build_source serve look_up try_remote after_remote finished kept_object
    remote_result compile_remote is_retryable_error
stored_object = refl

build-Stored_example :
    (generate_cache_key_raw sum64 build_request (1 ∷ [])
      ≡ generate_cache_key_raw sum64 build_request (1 ∷ []))
    × Stored (7 ∷ []) (build sum64 service world build_request)
build-Stored_example =
    build-Stored sum64 service world build_request (1 ∷ [])
      (generate_cache_key_raw sum64 build_request (1 ∷ [])) (7 ∷ []) refl stored_object

-- A connection that reports every other answer of a handler as an error.
abbrev deliver : Answer CompileResponse → Reply CompileResponse
deliver (answers resp) = replies resp
deliver _ = breaks "rpc error"

abbrev call_empty : ℕ → Reply CompileResponse
call_empty k =
    deliver (compile fixed no_log default_scheduler clock forward request tt empty_server).0

abbrev lonely_world : World
lonely_world = record world {
  remote_preprocessed =
      λ source. (compile_remote numeral call_empty never_done (pos 3) (pos 100000000)).reply;
}

build-compile-fails_example : build sum64 service lonely_world build_request ≡ record {
  result = replies (record {
    object_file = [];
    exit_code = pos 1;
    stdout = "";
    stderr = "no worker available: no workers available";
    cache_hit = false;
    fallback = false;
    fallback_reason = "";
    worker_id = "";
  });
  stored = none;
  reported_hit = false;
}
unfolding look_up new error_text
build-compile-fails_example =
    build-compile-fails fixed no_log default_scheduler clock request tt forward empty_server deliver
      (λ resp. refl) sum64 numeral call_empty never_done (pos 3) (pos 100000000) service
      lonely_world build_request (1 ∷ []) (1 ∷ 2 ∷ []) no_workers refl (omega arith)
      nobody_is_chosen refl refl refl refl refl refl
