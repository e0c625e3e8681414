-- ===== src/Coordinator/Placement.antt =====
-- Which worker gets a Flutter or a Unity build: `selectFlutterWorker` and `selectUnityWorker` of
-- internal/coordinator/server/grpc.go.
use hybridgrid.Prelude.{
  ℕ, String, Bool, true, false, Option, none, some, List, [], ◌∷◌, if◌then◌else◌, is_empty, ◌&&◌,
}
use Prim.Native.String.{◌++◌ as append}
use hybridgrid.Prelude.Int.{ℤ}
use hybridgrid.Registry.Types.{
  TargetPlatform, platform_unspecified, platform_android, platform_ios, platform_web,
  platform_windows, platform_linux, platform_macos, platform_webgl, WorkerCapabilities, WorkerInfo,
}
use hybridgrid.Registry.Table.{is_healthy, list}
use hybridgrid.Coordinator.Server.{Server, Kind, flutter, unity, kind_name}

unfoldable pub platform_eq : TargetPlatform → TargetPlatform → Bool
platform_eq platform_unspecified platform_unspecified = true
platform_eq platform_android platform_android = true
platform_eq platform_ios platform_ios = true
platform_eq platform_web platform_web = true
platform_eq platform_windows platform_windows = true
platform_eq platform_linux platform_linux = true
platform_eq platform_macos platform_macos = true
platform_eq platform_webgl platform_webgl = true
platform_eq _ _ = false

unfoldable pub platform_name : TargetPlatform → String
platform_name platform_unspecified = "PLATFORM_UNSPECIFIED"
platform_name platform_android = "PLATFORM_ANDROID"
platform_name platform_ios = "PLATFORM_IOS"
platform_name platform_web = "PLATFORM_WEB"
platform_name platform_windows = "PLATFORM_WINDOWS"
platform_name platform_linux = "PLATFORM_LINUX"
platform_name platform_macos = "PLATFORM_MACOS"
platform_name platform_webgl = "PLATFORM_WEBGL"

unfoldable pub among : TargetPlatform → List TargetPlatform → Bool
unfolding platform_eq
among platform [] = false
among platform (p ∷ ps) = if platform_eq p platform then true else among platform ps

-- An empty list of platforms stands for all.
unfoldable pub offers : TargetPlatform → List TargetPlatform → Bool
unfolding among
offers platform platforms = if is_empty platforms then true else among platform platforms

-- `workerSupportsFlutterPlatform` and `workerSupportsUnityPlatform`
unfoldable pub supports : Kind → TargetPlatform → WorkerCapabilities → Bool
unfolding offers
supports flutter platform caps = elim caps.flutter [
  | none ↦ false
  | some f ↦ offers platform f.platforms
]
supports unity platform caps = elim caps.unity [
  | none ↦ false
  | some u ↦ offers platform u.build_targets
]

unfoldable pub worker_supports : Kind → WorkerInfo → TargetPlatform → Bool
worker_supports kind w platform = elim w.capabilities [
  | none ↦ false
  | some caps ↦ supports kind platform caps
]

unfoldable pub first_worker : Kind → ℕ → ℤ → TargetPlatform → List WorkerInfo → Option WorkerInfo
unfolding worker_supports is_healthy
first_worker kind now ttl platform [] = none
first_worker kind now ttl platform (w ∷ ws) =
    if worker_supports kind w platform && is_healthy w now ttl
    then some w
    else first_worker kind now ttl platform ws

-- `selectFlutterWorker` and `selectUnityWorker`
unfoldable pub select_worker : Kind → ℕ → TargetPlatform → Server → Option WorkerInfo
select_worker kind now platform s =
    first_worker kind now s.config.heartbeat_ttl platform (list s.registry)

unfoldable pub no_worker_text : Kind → TargetPlatform → String
unfolding kind_name platform_name
no_worker_text kind platform =
    append "no worker available: no "
      (append (kind_name kind) (append " worker available for platform " (platform_name platform)))
