-- ===== src/Coordinator/Registration.antt =====
-- What `Handshake` of internal/coordinator/server/grpc.go does to the registry.
use Prim.Native.String.{◌++◌ as append}
use hybridgrid.Registry.Tasks.{get-add, get-step_other}
use hybridgrid.Prelude.{
  sym, subst, ap, ◌∙◌, ◌⊎◌, none, false, str_eq, eq_iff, Bool-cases, if◌then◌else◌, ℕ, String, ◌≡◌,
  refl, true, some, arith, inl, inr, Option-cases,
}
use hybridgrid.Prelude.Int.{ℤ, pos, ltb_ℤ, leb_ℤ, wrap32, quot_ℤ}
use hybridgrid.Prelude.Maps.{lookup, insert}
use hybridgrid.Registry.Types.{WorkerCapabilities, WorkerInfo, ok, is_unhealthy}
use hybridgrid.Registry.Table.{InMemoryRegistry, update_worker_metrics, enrol, refresh, add, get}
use hybridgrid.Registry.Invariant
use hybridgrid.Registry.Invariant.{adds}
use hybridgrid.Coordinator.Messages.{Answer, answers, invalid_argument}
use hybridgrid.Coordinator.Server.{Server}
use hybridgrid.Coordinator.Queries.{
  HandshakeResponse, rejection, or_else_text, heartbeat_interval, HandshakeRequest, offered_worker,
  welcome, register, token_fits, handshake,
}

-- `Add` does not fail.
add-ok :
    (now : ℕ) (w : WorkerInfo) (r : InMemoryRegistry)
    → (r' : InMemoryRegistry) × (add now w r ≡ ok r')
unfolding add
add-ok now w r = elim (Option-cases (lookup w.id r.workers)) [
  | inl e ↦ (
    update_worker_metrics (record r { workers = insert w.id (enrol now w) r.workers }),
    rw (e, add) refl,
  )
  | inr (x, e) ↦ (record r { workers = insert w.id (refresh now w x) r.workers }, rw (e, add) refl)
]

register_lem :
    (now : ℕ) (w : WorkerInfo) (s : Server)
    → register now w s ≡ (
      answers (welcome w.id s.config.heartbeat_ttl),
      record s { registry = Invariant.step s.registry (adds now w) },
    )
unfolding register Invariant.step
register_lem now w s = let (r, e) = add-ok now w s.registry in rw (e, register) refl

-- A handshake that is accepted, with what the answer and the registry then hold.
pub record Accepted (decimal : ℕ → String) (nanos now : ℕ) (req : HandshakeRequest) (s : Server)
    (caps : WorkerCapabilities) (out : Answer HandshakeResponse × Server) : Type 0 where
  pub id : String
  pub named : id ≡ (
      if str_eq caps.worker_id ""
      then append "worker-" (append caps.hostname (append "-" (decimal nanos)))
      else caps.worker_id)
  pub answer :
      out.0
      ≡ answers (record {
        accepted = true;
        message = "worker registered successfully";
        assigned_worker_id = id;
        heartbeat_interval_seconds = wrap32 (quot_ℤ s.config.heartbeat_ttl 2000000000);
      })
  pub worker : WorkerInfo
  pub found : get id out.1.registry ≡ some worker
  pub heard : worker.last_heartbeat ≡ now
  pub healthy : is_unhealthy worker.state ≡ false
  pub address :
      worker.address
      ≡ (if str_eq req.worker_address "" then append caps.hostname ":50052" else req.worker_address)
  pub capabilities : worker.capabilities ≡ some caps
  pub limit : ltb_ℤ (pos 0) worker.max_parallel ≡ true
  pub active_tasks :
      worker.active_tasks ≡ elim (get id s.registry) [ none ↦ pos 0 | some y ↦ y.active_tasks ]
  pub others : (j : String) → str_eq id j ≡ false → get j out.1.registry ≡ get j s.registry
  pub rest : out.1 ≡ record s { registry = out.1.registry }

module _ (decimal : ℕ → String) (nanos now : ℕ) (req : HandshakeRequest) (s : Server) where
  register-Accepted :
      (caps : WorkerCapabilities)
      → Accepted decimal nanos now req s caps
          (register now (offered_worker decimal nanos req caps) s)
  unfolding offered_worker or_else_text welcome heartbeat_interval Invariant.step
  register-Accepted caps =
      let w = offered_worker decimal nanos req caps in
      let (x, found, heard, healthy, address, capabilities, limit, active, total) =
        get-add now w s.registry in
      subst (Accepted decimal nanos now req s caps) (sym (register_lem now w s)) (record {
        id = w.id;
        named = refl;
        answer = refl;
        worker = x;
        found = found;
        heard = heard;
        healthy = healthy;
        address = address;
        capabilities = capabilities;
        limit = ap (ltb_ℤ (pos 0)) limit ∙ positive caps.max_parallel_tasks;
        active_tasks = active;
        others = λ j other.
            get-step_other (adds now w) j s.registry (λ same. other_id w.id j other same);
        rest = refl;
      })
    where
      other_id : (i j : String) → str_eq i j ≡ false → i ≡ j → ⊥
      other_id i j h e = let same : str_eq i j ≡ true = (eq_iff i j).1 e in cc

      positive : (m : ℤ) → ltb_ℤ (pos 0) (if leb_ℤ m (pos 0) then pos 4 else m) ≡ true
      positive m = ground arith

  by_register :
      (caps : WorkerCapabilities)
      → handshake decimal nanos now req s ≡ register now (offered_worker decimal nanos req caps) s
      → Accepted decimal nanos now req s caps (handshake decimal nanos now req s)
  by_register caps e =
      subst (Accepted decimal nanos now req s caps) (sym e) (register-Accepted caps)

  -- A handshake without capabilities is an invalid argument, and one with a wrong token is answered as not
  -- accepted; both leave the server as it was. Any other is accepted: under the ID of the answer the registry
  -- then holds a worker that was heard of now and is not unhealthy, with the capabilities, the address that
  -- was given or the default one, a positive limit of parallel tasks, and the active tasks of a worker that
  -- was known, or none; every other worker and the rest of the server are as they were.
  pub handshake_lem :
      let out = handshake decimal nanos now req s in
      ((req.capabilities ≡ none) × (out ≡ (invalid_argument "capabilities required", s)))
      ⊎ ((caps : WorkerCapabilities) × (req.capabilities ≡ some caps)
          × (str_eq s.config.auth_token "" ≡ false)
          × (str_eq req.auth_token s.config.auth_token ≡ false)
          × (out ≡ (
            answers (record {
              accepted = false;
              message = "invalid auth token";
              assigned_worker_id = "";
              heartbeat_interval_seconds = pos 0;
            }),
            s,
          )))
      ⊎ ((caps : WorkerCapabilities) × (req.capabilities ≡ some caps)
          × ((str_eq s.config.auth_token "" ≡ true)
              ⊎ (str_eq req.auth_token s.config.auth_token ≡ true))
          × Accepted decimal nanos now req s caps out)
  unfolding handshake rejection token_fits
  handshake_lem = elim (Option-cases req.capabilities) [
    | inl e ↦ inl (e, rw (e, handshake) refl)
    | inr (caps, e) ↦ elim (Bool-cases (str_eq s.config.auth_token "")) [
      | inl open_door ↦
          inr
            (inr (caps, e, inl open_door, by_register caps (rw (e, handshake) (rw open_door refl))))
      | inr closed ↦ elim (Bool-cases (str_eq req.auth_token s.config.auth_token)) [
        | inl same ↦
            inr (
              inr
                (caps, e, inr same, by_register caps (rw (e, handshake) (rw (closed, same) refl))))
        | inr other ↦
            inr (inl (caps, e, closed, other, rw (e, handshake) (rw (closed, other) refl)))
      ]
    ]
  ]
