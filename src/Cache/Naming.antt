-- ===== src/Cache/Naming.antt =====
-- `validateCacheKey` of internal/cache/store.go. A key is compared as its code points; the reserved
-- names have no letter that is the upper case of a code point beyond ASCII.
use Prim.Native.String.{String}
use hybridgrid.Prelude.Text.{points, same_points, has_prefix, any}
use hybridgrid.Prelude.{
  ℕ, ◌-◌, Bool, true, false, not, ◌&&◌, ◌||◌, List, [], ◌∷◌, ◌++◌, map, str_eq, leb, ◌==◌,
  if◌then◌else◌,
}

unfoldable pub upper : ℕ → ℕ
upper c = if leb 97 c && leb c 122 then c - 32 else c

abbrev pub windows_reserved_names : List String
windows_reserved_names =
    "CON" ∷ "PRN" ∷ "AUX" ∷ "NUL" ∷ "COM1" ∷ "COM2" ∷ "COM3" ∷ "COM4" ∷ "COM5" ∷ "COM6" ∷ "COM7"
    ∷ "COM8" ∷ "COM9" ∷ "LPT1" ∷ "LPT2" ∷ "LPT3" ∷ "LPT4" ∷ "LPT5" ∷ "LPT6" ∷ "LPT7" ∷ "LPT8"
    ∷ "LPT9" ∷ []

-- `< > : " | ? *`
abbrev pub windows_invalid_chars : List ℕ
windows_invalid_chars = 60 ∷ 62 ∷ 58 ∷ 34 ∷ 124 ∷ 63 ∷ 42 ∷ []

unfoldable pub has_windows_invalid_chars : List ℕ → Bool
unfolding any
has_windows_invalid_chars text = any (λ c. any (λ d. c == d) text) windows_invalid_chars

-- The condition of the loop over the reserved names.
unfoldable pub is_reserved : List ℕ → String → Bool
unfolding same_points has_prefix
is_reserved key_upper reserved =
    same_points key_upper (points reserved)
    || (has_prefix key_upper (points reserved ++ (46 ∷ []))
        || has_prefix key_upper (points reserved ++ (47 ∷ [])))

-- Whether the key is accepted, on Windows or elsewhere.
unfoldable pub validate_cache_key : (on_windows : Bool) (key : String) → Bool
unfolding has_windows_invalid_chars is_reserved any upper
validate_cache_key on_windows key =
    if str_eq key ""
    then false
    else if on_windows
    then not (has_windows_invalid_chars (points key))
      && not (any (is_reserved (map upper (points key))) windows_reserved_names)
    else true
