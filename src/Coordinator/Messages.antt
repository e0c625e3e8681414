-- ===== src/Coordinator/Messages.antt =====
-- The messages of proto/hybridgrid/v1/build.proto that the coordinator's server takes and gives, and
-- the events that it hands to the dashboard. Payloads are lists of bytes.
use hybridgrid.Prelude.{ℕ, String, Bool, true, false, List}
use hybridgrid.Prelude.Int.{ℤ}
use hybridgrid.Registry.Types.{Architecture, TargetPlatform}

abbrev pub Bytes : Type 0
Bytes = List ℕ

pub data TaskStatus : Type 0 where
  status_unspecified status_queued status_running : TaskStatus
  status_completed status_failed status_timeout : TaskStatus

unfoldable pub is_completed : TaskStatus → Bool
is_completed status_completed = true
is_completed _ = false

pub record CompileRequest : Type 0 where
  pub task_id : String
  pub preprocessed_source : Bytes
  pub raw_source : Bytes
  pub target_arch : Architecture
  pub client_os : String

pub record CompileResponse : Type 0 where
  pub status : TaskStatus
  pub object_file : Bytes
  pub exit_code : ℤ
  pub stdout : String
  pub stderr : String
  pub compilation_time_ms : ℤ
  pub queue_time_ms : ℤ
  pub worker_id : String
  pub from_cache : Bool

pub record ArtifactInfo : Type 0 where
  pub name : String
  pub path : String
  pub size_bytes : ℤ
  pub checksum : String

-- The `oneof` of a build request: the two kinds that the server builds, and all others.
pub data BuildConfig : Type 0 where
  flutter_config unity_config other_config : BuildConfig

pub record BuildRequest : Type 0 where
  pub task_id : String
  pub target_platform : TargetPlatform
  pub config : BuildConfig

pub record BuildResponse : Type 0 where
  pub status : TaskStatus
  pub artifacts : Bytes
  pub artifact_list : List ArtifactInfo
  pub exit_code : ℤ
  pub stdout : String
  pub stderr : String
  pub build_time_ms : ℤ
  pub from_cache : Bool

-- What a call of another process gives: its response, or an error with its text.
pub data Reply (A : Type 0) : Type 0 where
  replies : A → Reply A
  breaks : String → Reply A

-- What a handler gives: a response, the status `InvalidArgument` or `Internal` with its text, or a
-- run-time panic of Go.
pub data Answer (A : Type 0) : Type 0 where
  answers : A → Answer A
  invalid_argument internal : String → Answer A
  crashes : Answer A

pub record TaskEvent : Type 0 where
  pub id : String
  pub build_type : String
  pub status : String
  pub worker_id : String
  pub started_at : ℕ
  pub completed_at : ℕ
  pub duration_ms : ℤ
  pub exit_code : ℤ
  pub from_cache : Bool
  pub error_message : String

-- The two methods of `EventNotifier`.
pub data Notice : Type 0 where
  started completed : TaskEvent → Notice
