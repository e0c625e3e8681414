-- ===== src/Validation/Sanitize.antt =====
-- `SanitizeCompilerArgs` and `ValidateDockerImage` of internal/security/validation/sanitize.go. Where a
-- dangerous flag takes a value, the loop removes the next argument with it; here that argument is
-- marked when it comes.
use hybridgrid.Prelude.{
  ℕ, Bool, true, false, not, ◌&&◌, ◌||◌, List, [], ◌∷◌, if◌then◌else◌, leb, ◌==◌, is_empty, String,
}
use hybridgrid.Prelude.Text.{points, same_points, has_prefix, has_part, any, from}
use hybridgrid.Validation.Windows.{Bytes, contains_path_traversal}

abbrev pub dangerous_flags : List String
dangerous_flags =
    "--plugin" ∷ "-fplugin" ∷ "-B" ∷ "-specs" ∷ "--sysroot" ∷ "-Xlinker" ∷ "-Wl,--wrap"
    ∷ "-Wl,--defsym" ∷ "-fprofile-generate" ∷ "-fprofile-use" ∷ "-frepo" ∷ "-save-temps" ∷ "@" ∷ []

abbrev pub dangerous_flag_prefixes : List String
dangerous_flag_prefixes =
    "-fplugin=" ∷ "-fplugin-arg-" ∷ "-specs=" ∷ "--sysroot=" ∷ "-B/" ∷ "-B./" ∷ "-B.." ∷ []

-- `; | & $ ( ) { } [ ] < >`, the backquote, and the ends of lines.
abbrev pub shell_meta_characters : List ℕ
shell_meta_characters =
    59 ∷ 124 ∷ 38 ∷ 36 ∷ 96 ∷ 40 ∷ 41 ∷ 123 ∷ 125 ∷ 91 ∷ 93 ∷ 60 ∷ 62 ∷ 10 ∷ 13 ∷ []

unfoldable pub is_dangerous_flag : Bytes → Bool
unfolding any same_points has_prefix
is_dangerous_flag arg =
    any (λ flag. same_points arg (points flag)) dangerous_flags
    || any (λ prefix. has_prefix arg (points prefix)) dangerous_flag_prefixes

unfoldable pub needs_value_arg : Bytes → Bool
unfolding any same_points
needs_value_arg arg =
    any (λ flag. same_points arg (points flag)) ("--plugin" ∷ "-B" ∷ "-specs" ∷ "--sysroot" ∷ [])

unfoldable pub has_shell_meta_chars : Bytes → Bool
unfolding any
has_shell_meta_chars text = any (λ c. any (λ d. c == d) text) shell_meta_characters

-- The four checks of the loop.
unfoldable pub is_rejected : Bool → Bytes → Bool
unfolding is_dangerous_flag has_shell_meta_chars has_prefix contains_path_traversal has_part from
is_rejected on_windows arg =
    is_dangerous_flag arg
    || (has_shell_meta_chars arg
        || ((has_prefix arg (points "-I") && contains_path_traversal on_windows (from 2 arg))
            || (has_part arg (points ">>") || has_part arg (points "> "))))

-- The arguments that are kept, and those that are removed.
pub record Sanitized : Type 0 where
  pub sanitized : List Bytes
  pub removed : List Bytes

unfoldable pub file_under : Bool → Bytes → Sanitized → Sanitized
file_under reject arg s =
    if reject
    then record s { removed = arg ∷ s.removed }
    else record s { sanitized = arg ∷ s.sanitized }

-- Whether the next argument goes with this one, and whether this one is removed.
unfoldable pub takes_value : Bool → Bytes → Bool
unfolding is_dangerous_flag needs_value_arg
takes_value is_value arg = not is_value && (is_dangerous_flag arg && needs_value_arg arg)

unfoldable pub is_removed : Bool → Bool → Bytes → Bool
unfolding is_rejected
is_removed on_windows is_value arg = is_value || is_rejected on_windows arg

unfoldable pub sanitize_from : Bool → Bool → List Bytes → Sanitized
sanitize_from on_windows is_value [] = record { sanitized = []; removed = [] }
sanitize_from on_windows is_value (arg ∷ args) =
    file_under (is_removed on_windows is_value arg) arg
      (sanitize_from on_windows (takes_value is_value arg) args)

unfoldable pub sanitize_compiler_args : Bool → List Bytes → Sanitized
unfolding sanitize_from
sanitize_compiler_args on_windows args = sanitize_from on_windows false args

unfoldable pub is_image_char : ℕ → Bool
is_image_char c =
    (leb b'a' c && leb c b'z')
    || ((leb b'A' c && leb c b'Z')
        || ((leb b'0' c && leb c b'9')
            || ((c == b'.')
                || ((c == b'-')
                    || ((c == b'_') || ((c == b'/') || ((c == b':') || (c == b'@'))))))))

unfoldable pub validate_docker_image : Bytes → Bool
unfolding has_shell_meta_chars any is_image_char
validate_docker_image image =
    if is_empty image
    then true
    else if has_shell_meta_chars image
    then false
    else not (any (λ c. not (is_image_char c)) image)
