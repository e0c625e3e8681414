-- ===== src/Cache/BuildKeys.antt =====
-- The keys of Flutter and Unity builds in internal/cache/key.go. A map is an association list, in the
-- order in which Go happens to iterate.
use hybridgrid.Prelude.{ℕ, Option, none, some, List, [], ◌∷◌, if◌then◌else◌}
use hybridgrid.Prelude.Text.{points, same_points}
use hybridgrid.Registry.Types.{
  TargetPlatform, platform_unspecified, platform_android, platform_ios, platform_web,
  platform_windows, platform_linux, platform_macos, platform_webgl,
}
use hybridgrid.Cache.Key.{Bytes, KeyBuilder, new_key_builder, add_string, sort_strings, sum}

pub record FlutterConfig : Type 0 where
  pub build_mode : Bytes
  pub flavor : Bytes
  pub dart_defines : List (Bytes × Bytes)

pub record UnityConfig : Type 0 where
  pub scripting_backend : Bytes
  pub build_method : Bytes
  pub extra_args : List (Bytes × Bytes)

unfoldable pub keys_of : List (Bytes × Bytes) → List Bytes
keys_of [] = []
keys_of ((k, v) ∷ m) = k ∷ keys_of m

-- A map's value, empty for a missing key.
unfoldable pub value_of : List (Bytes × Bytes) → Bytes → Bytes
unfolding same_points
value_of [] k = []
value_of ((k', v) ∷ m) k = if same_points k' k then v else value_of m k

unfoldable pub add_pairs : (Bytes → Bytes) → List Bytes → KeyBuilder → KeyBuilder
unfolding add_string
add_pairs values [] kb = kb
add_pairs values (k ∷ ks) kb = add_pairs values ks (add_string (values k) (add_string k kb))

unfoldable pub add_map : List (Bytes × Bytes) → KeyBuilder → KeyBuilder
unfolding add_pairs keys_of value_of sort_strings
add_map m kb = add_pairs (value_of m) (sort_strings (keys_of m)) kb

unfoldable pub add_flutter_config : Option FlutterConfig → KeyBuilder → KeyBuilder
unfolding add_map add_string
add_flutter_config none kb = add_string [] (add_string [] kb)
add_flutter_config (some c) kb =
    add_map c.dart_defines (add_string c.flavor (add_string c.build_mode kb))

unfoldable pub add_unity_config : Option UnityConfig → KeyBuilder → KeyBuilder
unfolding add_map add_string
add_unity_config none kb = add_string [] (add_string [] kb)
add_unity_config (some c) kb =
    add_map c.extra_args (add_string c.build_method (add_string c.scripting_backend kb))

unfoldable pub platform_name : TargetPlatform → Bytes
platform_name platform_unspecified = points "PLATFORM_UNSPECIFIED"
platform_name platform_android = points "PLATFORM_ANDROID"
platform_name platform_ios = points "PLATFORM_IOS"
platform_name platform_web = points "PLATFORM_WEB"
platform_name platform_windows = points "PLATFORM_WINDOWS"
platform_name platform_linux = points "PLATFORM_LINUX"
platform_name platform_macos = points "PLATFORM_MACOS"
platform_name platform_webgl = points "PLATFORM_WEBGL"

module _ (sum64 : Bytes → ℕ) where
  unfoldable pub flutter_cache_key : Option FlutterConfig → (pubspec_hash version : Bytes) → Bytes
  unfolding add_flutter_config new_key_builder add_string sum
  flutter_cache_key config pubspec_hash version =
      sum sum64
        (add_string version (add_flutter_config config (add_string pubspec_hash new_key_builder)))

  unfoldable pub unity_cache_key :
      Option UnityConfig → (project_hash version : Bytes) → TargetPlatform → Bytes
  unfolding add_unity_config platform_name new_key_builder add_string sum
  unity_cache_key config project_hash version platform = sum sum64 (
      add_unity_config config (
        add_string (platform_name platform)
          (add_string version (add_string project_hash new_key_builder))))
