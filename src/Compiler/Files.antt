-- ===== src/Compiler/Files.antt =====
-- What internal/compiler/parser.go tells from the name of a file. A name is a list of bytes; the
-- separator of paths is that of Unix.
use hybridgrid.Prelude.{
  ℕ, ◌+◌, Bool, ◌&&◌, String, List, [], ◌∷◌, map, if◌then◌else◌, leb, ◌==◌, is_empty,
}
use hybridgrid.Prelude.Text.{points, same_points, has_part, any, split}

abbrev pub Bytes : Type 0
Bytes = List ℕ

-- `filepath.Ext`: from the last dot of the last element on.
unfoldable pub ext_from : Bytes → Bytes → Bytes
ext_from found [] = found
ext_from found (c ∷ cs) =
    ext_from (if c == b'.' then c ∷ cs else if c == b'/' then [] else found) cs

unfoldable pub lower : ℕ → ℕ
lower c = if leb 65 c && leb c 90 then c + 32 else c

-- `strings.ToLower(filepath.Ext(path))`
unfoldable pub lower_ext : Bytes → Bytes
unfolding ext_from lower
lower_ext path = map lower (ext_from [] path)

unfoldable pub is_one_of : Bytes → List String → Bool
unfolding any same_points
is_one_of text names = any (λ name. same_points text (points name)) names

unfoldable pub is_source_file : Bytes → Bool
unfolding lower_ext is_one_of
is_source_file path =
    is_one_of (lower_ext path)
      (".c" ∷ ".cc" ∷ ".cpp" ∷ ".cxx" ∷ ".c++" ∷ ".m" ∷ ".mm" ∷ ".s" ∷ ".S" ∷ [])

unfoldable pub is_object_file : Bytes → Bool
unfolding lower_ext is_one_of
is_object_file path = is_one_of (lower_ext path) (".o" ∷ ".obj" ∷ [])

unfoldable pub detect_language : Bytes → Bytes
unfolding lower_ext is_one_of
detect_language path =
    let ext = lower_ext path in
    if is_one_of ext (".c" ∷ [])
    then points "c"
    else if is_one_of ext (".cc" ∷ ".cpp" ∷ ".cxx" ∷ ".c++" ∷ [])
    then points "c++"
    else if is_one_of ext (".m" ∷ [])
    then points "objective-c"
    else if is_one_of ext (".mm" ∷ [])
    then points "objective-c++"
    else if is_one_of ext (".s" ∷ ".S" ∷ [])
    then points "assembler"
    else []

-- `filepath.Base`: the last element that is not empty.
unfoldable pub last_part : Bytes → List Bytes → Bytes
last_part found [] = found
last_part found (p ∷ ps) = last_part (if is_empty p then found else p) ps

unfoldable pub base_name : Bytes → Bytes
unfolding last_part split
base_name path = if is_empty path then points "." else last_part (points "/") (split b'/' path)

pub data CompilerType : Type 0 where
  compiler_unknown compiler_gcc compiler_clang compiler_gpp compiler_clangpp : CompilerType

unfoldable pub detect_compiler_type : Bytes → CompilerType
unfolding base_name has_part
detect_compiler_type compiler =
    let base = base_name compiler in
    if has_part base (points "clang++")
    then compiler_clangpp
    else if has_part base (points "clang")
    then compiler_clang
    else if has_part base (points "g++")
    then compiler_gpp
    else if has_part base (points "gcc")
    then compiler_gcc
    else compiler_unknown
