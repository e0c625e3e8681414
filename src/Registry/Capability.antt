-- ===== src/Registry/Capability.antt =====
-- `matchesCapability` of internal/coordinator/registry/registry.go, without its log lines.
use hybridgrid.Prelude.{Bool, true, false, not, ◌||◌, Option, none, some, if◌then◌else◌, is_empty}
use hybridgrid.Registry.Types.{
  Architecture, arch_unspecified, arch_eq, BuildType, build_type_unspecified, build_type_cpp,
  build_type_flutter, build_type_unity, build_type_cocos, build_type_rust, build_type_go,
  build_type_nodejs, WorkerCapabilities, CppCapability,
}

abbrev pub is_some {ℓ} : {A : Type ℓ} → Option A → Bool
is_some none = false
is_some (some a) = true

-- `caps.Cpp != nil && caps.Cpp.CrossCompile`
unfoldable pub cpp_cross_compile : Option CppCapability → Bool
cpp_cross_compile none = false
cpp_cross_compile (some c) = c.cross_compile

-- `caps.Cpp != nil && len(caps.Cpp.Compilers) > 0`
unfoldable pub has_cpp : Option CppCapability → Bool
has_cpp none = false
has_cpp (some c) = not (is_empty c.compilers)

unfoldable pub arch_matches : WorkerCapabilities → Architecture → Bool
unfolding arch_eq cpp_cross_compile
arch_matches caps arch =
    if arch_eq arch arch_unspecified
    then true
    else arch_eq caps.native_arch arch || (caps.docker_available || cpp_cross_compile caps.cpp)

-- The `switch` on the build type.
unfoldable pub build_matches : WorkerCapabilities → BuildType → Bool
unfolding has_cpp
build_matches caps build_type_cpp = has_cpp caps.cpp
build_matches caps build_type_go = is_some caps.go
build_matches caps build_type_rust = is_some caps.rust
build_matches caps build_type_nodejs = is_some caps.nodejs
build_matches caps build_type_flutter = is_some caps.flutter
build_matches caps build_type_unspecified = true
build_matches caps build_type_unity = true
build_matches caps build_type_cocos = true

unfoldable pub matches_capability : Option WorkerCapabilities → BuildType → Architecture → Bool
unfolding arch_matches build_matches
matches_capability none b a = false
matches_capability (some caps) b a = if arch_matches caps a then build_matches caps b else false
