-- ===== src/Registry/Types.antt =====
-- The data of internal/coordinator/registry/registry.go, and the messages of
-- proto/hybridgrid/v1/build.proto that it stores. A pointer that may be nil is an `Option`; a time is
-- a reading of the monotonic clock in nanoseconds, and a duration an integer of nanoseconds.
use hybridgrid.Prelude.{ℕ, String, Bool, true, false, Option, List}
use hybridgrid.Prelude.Int.{ℤ}

pub data Architecture : Type 0 where
  arch_unspecified arch_x86_64 arch_arm64 arch_armv7 : Architecture

unfoldable pub arch_eq : Architecture → Architecture → Bool
arch_eq arch_unspecified arch_unspecified = true
arch_eq arch_x86_64 arch_x86_64 = true
arch_eq arch_arm64 arch_arm64 = true
arch_eq arch_armv7 arch_armv7 = true
arch_eq _ _ = false

pub data BuildType : Type 0 where
  build_type_unspecified build_type_cpp build_type_flutter build_type_unity : BuildType
  build_type_cocos build_type_rust build_type_go build_type_nodejs : BuildType

pub data TargetPlatform : Type 0 where
  platform_unspecified platform_android platform_ios platform_web : TargetPlatform
  platform_windows platform_linux platform_macos platform_webgl : TargetPlatform

pub record CppCapability : Type 0 where
  pub compilers : List String
  pub cross_compile : Bool
  pub docker_images : List String
  pub msvc_version : String
  pub msvc_architectures : List String
  pub has_windows_sdk : Bool

pub record FlutterCapability : Type 0 where
  pub sdk_version : String
  pub platforms : List TargetPlatform
  pub android_sdk : Bool
  pub xcode_available : Bool

pub record UnityCapability : Type 0 where
  pub versions : List String
  pub license_type : String
  pub build_targets : List TargetPlatform

pub record CocosCapability : Type 0 where
  pub versions : List String
  pub platforms : List TargetPlatform

pub record RustCapability : Type 0 where
  pub toolchains : List String
  pub targets : List String

pub record GoCapability : Type 0 where
  pub version : String
  pub cross_compile : Bool

pub record NodeCapability : Type 0 where
  pub versions : List String
  pub package_managers : List String

pub record WorkerCapabilities : Type 0 where
  pub worker_id : String
  pub hostname : String
  pub cpu_cores : ℤ
  pub memory_bytes : ℤ
  pub disk_space_bytes : ℤ
  pub native_arch : Architecture
  pub os : String
  pub docker_available : Bool
  pub docker_images : List String
  pub max_parallel_tasks : ℤ
  pub version : String
  pub cpp : Option CppCapability
  pub flutter : Option FlutterCapability
  pub unity : Option UnityCapability
  pub cocos : Option CocosCapability
  pub rust : Option RustCapability
  pub go : Option GoCapability
  pub nodejs : Option NodeCapability

pub data WorkerState : Type 0 where
  idle busy unhealthy : WorkerState

unfoldable pub is_idle : WorkerState → Bool
is_idle idle = true
is_idle _ = false

unfoldable pub is_busy : WorkerState → Bool
is_busy busy = true
is_busy _ = false

unfoldable pub is_unhealthy : WorkerState → Bool
is_unhealthy unhealthy = true
is_unhealthy _ = false

pub record WorkerInfo : Type 0 where
  pub id : String
  pub address : String
  pub capabilities : Option WorkerCapabilities
  pub state : WorkerState
  pub discovery_source : String
  pub last_heartbeat : ℕ
  pub registered_at : ℕ
  pub max_parallel : ℤ
  pub active_tasks : ℤ
  pub total_tasks : ℤ
  pub successful_tasks : ℤ
  pub failed_tasks : ℤ
  pub avg_compile_time : ℤ

pub data Error : Type 0 where
  not_found : String → Error

pub data Result {ℓ} (A : Type ℓ) : Type ℓ where
  ok : A → Result A
  err : Error → Result A
