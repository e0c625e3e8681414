-- ===== src/Cache/Iteration.antt =====
-- The order of iteration over a map does not matter for the keys of internal/cache/key.go.
use hybridgrid.Prelude.{ℕ, ◌≡◌, refl, ◌∙◌, ap, some, List, [], ◌∷◌}
use mathlib.Core.List.{Permᴰ}
use hybridgrid.Registry.Types.{TargetPlatform}
use hybridgrid.Cache.Key.{Bytes, KeyBuilder, add_string, sort_strings, sum}
use hybridgrid.Cache.Sorting.{sort_strings-Perm}
use hybridgrid.Cache.BuildKeys.{
  FlutterConfig, UnityConfig, keys_of, value_of, add_pairs, add_map, add_flutter_config,
  add_unity_config, flutter_cache_key, unity_cache_key,
}

add_pairs-same :
    (f g : Bytes → Bytes) (ks : List Bytes) (kb : KeyBuilder)
    → ((k : Bytes) → f k ≡ g k)
    → add_pairs f ks kb ≡ add_pairs g ks kb
unfolding add_pairs
add_pairs-same f g [] kb h = refl
add_pairs-same f g (k ∷ ks) kb h =
    ap (λ v. add_pairs f ks (add_string v (add_string k kb))) (h k)
    ∙ add_pairs-same f g ks (add_string (g k) (add_string k kb)) h

add_map-Perm :
    (m m' : List (Bytes × Bytes)) (kb : KeyBuilder)
    → Permᴰ (keys_of m) (keys_of m')
    → ((k : Bytes) → value_of m k ≡ value_of m' k)
    → add_map m kb ≡ add_map m' kb
unfolding add_map
add_map-Perm m m' kb p h =
    ap (λ ks. add_pairs (value_of m) ks kb) (sort_strings-Perm p)
    ∙ add_pairs-same (value_of m) (value_of m') (sort_strings (keys_of m')) kb h

-- The keys of Flutter and Unity builds do not depend on the order in which Go iterates over a map: maps with
-- the same keys up to their order, and the same value for each key, give the same key of the cache.
pub add_map-cache_key :
    (sum64 : Bytes → ℕ) (m m' : List (Bytes × Bytes)) (f : FlutterConfig) (u : UnityConfig)
    (hash version : Bytes) (platform : TargetPlatform)
    → Permᴰ (keys_of m) (keys_of m')
    → ((k : Bytes) → value_of m k ≡ value_of m' k)
    → (flutter_cache_key sum64 (some (record f { dart_defines = m })) hash version
        ≡ flutter_cache_key sum64 (some (record f { dart_defines = m' })) hash version)
      × (unity_cache_key sum64 (some (record u { extra_args = m })) hash version platform
          ≡ unity_cache_key sum64 (some (record u { extra_args = m' })) hash version platform)
unfolding flutter_cache_key unity_cache_key add_flutter_config add_unity_config
add_map-cache_key sum64 m m' f u hash version platform p h = (
  ap (λ kb. sum sum64 (add_string version kb)) (add_map-Perm m m' _ p h),
  ap (λ kb. sum sum64 kb) (add_map-Perm m m' _ p h),
)
