-- ===== src/Tests/KeyRuns.antt =====
-- Keys of small compilations.
use hybridgrid.Prelude.Text.{same_points}
use hybridgrid.Prelude.{some, List, ◌≡◌, refl, [], ◌∷◌, ◌++◌, length, All, arith}
use hybridgrid.Cache.Key.{
  Bytes, leb_bytes, place, sort_strings, CompilationKey, key_builder, new_key_builder,
  add_sorted_strings, add_strings, add_string, add_bytes, build, encode_sum, hex_byte, hex_digit,
  byte_at,
}
use mathlib.Core.List.{Permᴰ}
use hybridgrid.Registry.Types.{platform_web}
use hybridgrid.Cache.BuildKeys.{
  FlutterConfig, UnityConfig, keys_of, value_of, flutter_cache_key, unity_cache_key,
}
use hybridgrid.Cache.Iteration.{add_map-cache_key}
use hybridgrid.Cache.Sorting.{build-Perm}
use hybridgrid.Cache.Separation.{NulFree, parts, key_builder-injective, build-flags_as_defines}

abbrev gcc_key : CompilationKey
gcc_key = record {
  compiler = 103 ∷ [];
  compiler_ver = 49 ∷ [];
  target_arch = 120 ∷ [];
  flags = (45 ∷ 79 ∷ []) ∷ [];
  defines = (68 ∷ []) ∷ [];
  source_hash = 97 ∷ [];
}

encode_255 :
    encode_sum 255
    ≡ 48 ∷ 48 ∷ 48 ∷ 48 ∷ 48 ∷ 48 ∷ 48 ∷ 48 ∷ 48 ∷ 48 ∷ 48 ∷ 48 ∷ 48 ∷ 48 ∷ 102 ∷ 102 ∷ []
unfolding encode_sum hex_byte hex_digit byte_at
encode_255 = refl

gcc_key-NulFree : All NulFree (parts gcc_key)
unfolding sort_strings place leb_bytes
gcc_key-NulFree = ground arith

-- The same with the define among the flags.
abbrev merged_key : CompilationKey
merged_key = record gcc_key { flags = (45 ∷ 79 ∷ []) ∷ (68 ∷ []) ∷ []; defines = [] }

merged_key-NulFree : All NulFree (parts merged_key)
unfolding sort_strings place leb_bytes
merged_key-NulFree = ground arith

same_bytes : (key_builder gcc_key).written ≡ (key_builder merged_key).written
unfolding key_builder new_key_builder add_sorted_strings add_strings add_string add_bytes
    sort_strings place leb_bytes
same_bytes = refl

key_builder-injective_example :
    (gcc_key.compiler ≡ merged_key.compiler)
    × (gcc_key.compiler_ver ≡ merged_key.compiler_ver)
    × (gcc_key.target_arch ≡ merged_key.target_arch)
    × (sort_strings gcc_key.flags ++ (sort_strings gcc_key.defines ++ (gcc_key.source_hash ∷ []))
        ≡ sort_strings merged_key.flags
          ++ (sort_strings merged_key.defines ++ (merged_key.source_hash ∷ [])))
key_builder-injective_example =
    key_builder-injective gcc_key merged_key gcc_key-NulFree merged_key-NulFree same_bytes

flags_then_defines :
    sort_strings (gcc_key.flags ++ gcc_key.defines)
    ≡ sort_strings gcc_key.flags ++ sort_strings gcc_key.defines
unfolding sort_strings place leb_bytes
flags_then_defines = refl

build-flags_as_defines_example :
    build
      (λ b. length b)
      (record gcc_key { flags = gcc_key.flags ++ gcc_key.defines; defines = [] })
    ≡ build (λ b. length b) gcc_key
build-flags_as_defines_example = build-flags_as_defines (λ b. length b) gcc_key flags_then_defines

two_flags : Permᴰ {A = Bytes} ((45 ∷ 79 ∷ []) ∷ (68 ∷ []) ∷ []) ((68 ∷ []) ∷ (45 ∷ 79 ∷ []) ∷ [])
two_flags = Permᴰ.swap refl refl

build-Perm_example :
    build
      (λ b. length b)
      (record merged_key { flags = (68 ∷ []) ∷ (45 ∷ 79 ∷ []) ∷ []; defines = [] })
    ≡ build (λ b. length b) merged_key
build-Perm_example =
    build-Perm (λ b. length b) merged_key ((68 ∷ []) ∷ (45 ∷ 79 ∷ []) ∷ []) [] two_flags Permᴰ.nil

-- A map with two keys, in both orders.
abbrev forth : List (Bytes × Bytes)
forth = (1 ∷ [], 5 ∷ []) ∷ (2 ∷ [], 6 ∷ []) ∷ []

abbrev back : List (Bytes × Bytes)
back = (2 ∷ [], 6 ∷ []) ∷ (1 ∷ [], 5 ∷ []) ∷ []

abbrev flutter : FlutterConfig
flutter = record { build_mode = 3 ∷ []; flavor = []; dart_defines = [] }

abbrev unity : UnityConfig
unity = record { scripting_backend = 4 ∷ []; build_method = []; extra_args = [] }

same_values : (k : Bytes) → value_of forth k ≡ value_of back k
unfolding value_of same_points
same_values [] = refl
same_values (c ∷ []) = ground arith
same_values (c ∷ d ∷ k) = ground arith

add_map-cache_key_example :
    (flutter_cache_key length (some (record flutter { dart_defines = forth })) [] []
      ≡ flutter_cache_key length (some (record flutter { dart_defines = back })) [] [])
    × (unity_cache_key length (some (record unity { extra_args = forth })) [] [] platform_web
        ≡ unity_cache_key length (some (record unity { extra_args = back })) [] [] platform_web)
unfolding keys_of
add_map-cache_key_example =
    add_map-cache_key length forth back flutter unity [] [] platform_web (Permᴰ.swap refl refl)
      same_values
