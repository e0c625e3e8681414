-- ===== src/Client/Unplaced.antt =====
-- What `Build` of internal/cli/build/build.go makes of the answer of a coordinator that has no worker.
use hybridgrid.Prelude.{
  ℕ, ◌<◌, ◌≡◌, refl, ap, ◌∙◌, String, str_eq, Bool, true, false, Option, none, some, [], ◌&&◌,
  if◌then◌else◌,
}
use Prim.Native.String.{◌++◌ as append}
use hybridgrid.Prelude.Int.{ℤ, pos, word}
use hybridgrid.Prelude.Float.{Float}
use hybridgrid.Registry.Types.{WorkerInfo}
use hybridgrid.Scheduler.Eligible.{SelectError, fails}
use hybridgrid.Scheduler.Interface.{Scheduler}
use hybridgrid.Compiler.Files.{Bytes}
use hybridgrid.Coordinator.Messages.{
  CompileRequest, CompileResponse, Reply, replies, Answer, answers,
}
use hybridgrid.Coordinator.Server.{Server}
use hybridgrid.Coordinator.Tasks.{Clock}
use hybridgrid.Coordinator.Compile.{error_text, failed_response, select_worker, compile}
use hybridgrid.Coordinator.Dispatch.{compile-fails}
use hybridgrid.Client.Remote.{compile_remote, answered}
use hybridgrid.Client.Service.{
  Service, Request, World, remote_result, kept_object, finished, try_remote, look_up,
  generate_cache_key_raw, build,
}
use hybridgrid.Client.Laws.{build-answered}

-- A first call that gives a response is the last one.
compile_remote-replies :
    (decimal : ℕ → String) (call : ℕ → Reply CompileResponse) (is_done : ℕ → Option String)
    (max_retries delay : ℤ) (resp : CompileResponse)
    → call 0 ≡ replies resp
    → (compile_remote decimal call is_done max_retries delay).reply ≡ replies resp
unfolding compile_remote answered
compile_remote-replies decimal call is_done max_retries delay resp e = rw e refl

never : (b : Bool) (a : Bytes × Bytes) → (if b && false then some a else none) ≡ none
never true a = refl
never false a = refl

finished-failed :
    (s : Service) (key : Bytes) (text : String)
    → finished s key (remote_result (failed_response text)) ≡ record {
      result = replies (remote_result (failed_response text));
      stored = none;
      reported_hit = false;
    }
unfolding finished kept_object remote_result failed_response
finished-failed s key text =
    ap
      (λ k. record {
        result = replies (remote_result (failed_response text));
        stored = k;
        reported_hit = false;
      })
      (never s.has_cache (key, []))

-- The connection between client and coordinator hands a response over unchanged.
module _ (F : Float) (log1p : F.Carrier → F.Carrier) (S : Scheduler F.Carrier) (t : Clock)
    (creq : CompileRequest) (sched : S.State)
    (forward : WorkerInfo → CompileRequest → Reply CompileResponse) (server : Server)
    (deliver : Answer CompileResponse → Reply CompileResponse)
    (unchanged : (resp : CompileResponse) → deliver (answers resp) ≡ replies resp) where
  -- Where the coordinator has no worker for the task, `Build` reports a compilation that failed: exit code 1
  -- and the text of the scheduler's error. Nothing is compiled locally, even where the fallback is
  -- enabled, and nothing is stored. (The client is connected, the source can be read and
  -- preprocessed, the cache has no object for it, and the first call reaches `Compile` of a
  -- coordinator whose scheduler fails; the request has a task ID, and the count of queued tasks is
  -- one of 64 bits.)
  pub build-compile-fails :
      (sum64 : Bytes → ℕ) (decimal : ℕ → String) (call : ℕ → Reply CompileResponse)
      (is_done : ℕ → Option String) (max_retries delay : ℤ) (s : Service) (w : World)
      (req : Request) (raw source : Bytes) (e : SelectError)
      → str_eq creq.task_id "" ≡ false
      → server.counters.queued_tasks < word
      → (select_worker F log1p S t creq sched server).0 ≡ fails e
      → call 0 ≡ deliver (compile F log1p S t forward creq sched server).0
      → w.source ≡ replies raw
      → w.preprocessed ≡ replies source
      → w.remote_preprocessed source ≡ (compile_remote decimal call is_done max_retries delay).reply
      → s.has_client ≡ true
      → look_up s w (generate_cache_key_raw sum64 req raw) ≡ none
      → build sum64 s w req ≡ record {
        result = replies (record {
          object_file = [];
          exit_code = pos 1;
          stdout = "";
          stderr = append "no worker available: " (error_text e);
          cache_hit = false;
          fallback = false;
          fallback_reason = "";
          worker_id = "";
        });
        stored = none;
        reported_hit = false;
      }
  unfolding try_remote remote_result failed_response
  build-compile-fails sum64 decimal call is_done max_retries delay s w req raw source e named q
        none_fits first read ready sent client miss =
      let text : String = append "no worker available: " (error_text e) in
      let first_reply : call 0 ≡ replies (failed_response text) =
        first
        ∙ (ap deliver (compile-fails F log1p S t creq sched forward server named q e none_fits).0
            ∙ unchanged (failed_response text)) in
      let tried : try_remote w raw w.preprocessed ≡ replies (failed_response text) =
        ap (try_remote w raw) ready
        ∙ (sent
            ∙ compile_remote-replies decimal call is_done max_retries delay (failed_response text)
                first_reply) in
      build-answered sum64 s w req raw (failed_response text) read client miss tried
      ∙ finished-failed s (generate_cache_key_raw sum64 req raw) text
