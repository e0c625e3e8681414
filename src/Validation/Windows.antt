-- ===== src/Validation/Windows.antt =====
-- Paths in internal/security/validation/sanitize.go: traversal, and the names that Windows reserves. A
-- path is a list of bytes; `on_windows` is `runtime.GOOS == "windows"`, where ToSlash turns backslashes.
use hybridgrid.Prelude.{
  ℕ, ◌-◌, Bool, true, false, not, ◌&&◌, ◌||◌, Option, none, some, List, [], ◌∷◌, ◌++◌, map,
  if◌then◌else◌, leb, ◌==◌, is_empty, String,
}
use hybridgrid.Prelude.Text.{points, same_points, has_part, any, split}

abbrev pub Bytes : Type 0
Bytes = List ℕ

unfoldable pub to_slash : Bool → Bytes → Bytes
to_slash on_windows path = if on_windows then map (λ c. if c == 92 then b'/' else c) path else path

unfoldable pub contains_path_traversal : Bool → Bytes → Bool
unfolding to_slash split any same_points has_part
contains_path_traversal on_windows path =
    any (λ part. same_points part (points "..")) (split b'/' (to_slash on_windows path))
    || (has_part path (points "%2e%2e") || has_part path (points "%2E%2E"))

abbrev pub windows_reserved_names : List String
windows_reserved_names =
    "CON" ∷ "PRN" ∷ "AUX" ∷ "NUL" ∷ "COM1" ∷ "COM2" ∷ "COM3" ∷ "COM4" ∷ "COM5" ∷ "COM6" ∷ "COM7"
    ∷ "COM8" ∷ "COM9" ∷ "LPT1" ∷ "LPT2" ∷ "LPT3" ∷ "LPT4" ∷ "LPT5" ∷ "LPT6" ∷ "LPT7" ∷ "LPT8"
    ∷ "LPT9" ∷ []

-- `< > " | ? *`, and the colon.
abbrev pub windows_invalid_chars : List ℕ
windows_invalid_chars = 60 ∷ 62 ∷ 58 ∷ 34 ∷ 124 ∷ 63 ∷ 42 ∷ []

unfoldable pub upper : ℕ → ℕ
upper c = if leb 97 c && leb c 122 then c - 32 else c

-- What stands before the last dot, the whole name if there is none.
unfoldable pub stem_from : Bytes → Option Bytes → Bytes → Bytes
stem_from seen none [] = seen
stem_from seen (some stem) [] = stem
stem_from seen found (c ∷ cs) =
    stem_from (seen ++ c ∷ []) (if c == b'.' then some seen else found) cs

unfoldable pub is_windows_reserved_name : Bytes → Bool
unfolding stem_from upper any same_points
is_windows_reserved_name name =
    let base = stem_from [] none (map upper name) in
    any (λ reserved. same_points base (points reserved)) windows_reserved_names

-- `hasWindowsInvalidChars`, from place `i` on.
unfoldable pub has_invalid_from : Bool → Bytes → Bool
unfolding any
has_invalid_from at_second [] = false
has_invalid_from at_second (c ∷ cs) =
    (if c == b':' then not at_second else any (λ d. c == d) windows_invalid_chars)
    || has_invalid_from false cs

-- A colon may stand in the second place only.
unfoldable pub has_windows_invalid_chars : Bytes → Bool
unfolding has_invalid_from any
has_windows_invalid_chars [] = false
has_windows_invalid_chars (c ∷ cs) =
    any (λ d. c == d) windows_invalid_chars || has_invalid_from true cs

-- `ValidatePathForWindows`: whether the path is accepted.
unfoldable pub validate_path_for_windows : Bool → Bytes → Bool
unfolding has_windows_invalid_chars to_slash split any is_windows_reserved_name
validate_path_for_windows on_windows path =
    if is_empty path
    then true
    else if has_windows_invalid_chars path
    then false
    else not (
        any (λ part. not (is_empty part) && is_windows_reserved_name part)
          (split b'/' (to_slash on_windows path)))
