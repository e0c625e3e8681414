-- ===== src/Tests/CommandRuns.antt =====
-- Command lines: what `Parse` and `SanitizeCompilerArgs` make of them.
use hybridgrid.Prelude.{All, ◌≡◌, refl, true, false, some, List, [], ◌∷◌, ◌++◌, map}
use mathlib.Core.List.{Permᴰ}
use hybridgrid.Prelude.Text.{points}
use hybridgrid.Compiler.Files.{Bytes, compiler_gcc, is_source_file, detect_compiler_type}
use hybridgrid.Compiler.Args.{
  ParsedArgs, classify, take_arg, take_value, scan, blank, language_of, conclude, parse, to_args,
  is_distributable,
}
use hybridgrid.Compiler.RoundTrip.{parse-to_args}
use hybridgrid.Validation.Sanitize.{
  sanitize_compiler_args, sanitize_from, is_removed, takes_value, file_under,
}
use hybridgrid.Validation.Laws.{IsClean, sanitize_compiler_args_lem}

abbrev command : List Bytes
command = map points (
    "/usr/bin/gcc" ∷ "-c" ∷ "-I" ∷ "inc" ∷ "-DN=1" ∷ "-march" ∷ "native" ∷ "-O2" ∷ "a.c" ∷ "-o"
    ∷ "a.o" ∷ [])

abbrev parsed : ParsedArgs
parsed = record {
  compiler = points "/usr/bin/gcc";
  compiler_type = compiler_gcc;
  input_files = points "a.c" ∷ [];
  output_file = points "a.o";
  include_dirs = points "inc" ∷ [];
  defines = points "N=1" ∷ [];
  flags = map points ("-c" ∷ "-march" ∷ "native" ∷ "-O2" ∷ []);
  is_compile_only = true;
  is_preprocess = false;
  is_link = false;
  target_arch = points "native";
  language = points "c";
  standard = [];
  optimization = points "2";
}

command_is_parsed : parse command ≡ some parsed
unfolding parse scan conclude blank language_of take_value take_arg classify detect_compiler_type
command_is_parsed = refl

command_is_distributable : is_distributable parsed ≡ true
unfolding is_distributable is_source_file
command_is_distributable = refl

parse-to_args_example : parse (to_args parsed) ≡ some parsed
parse-to_args_example = parse-to_args command parsed command_is_parsed (refl, tt) (refl, tt)

-- `ToArgs` writes an empty directory as an option that takes the next argument.
abbrev empty_directory : ParsedArgs
empty_directory = record parsed { include_dirs = [] ∷ []; defines = [] }

empty_directory_takes_next :
    parse (to_args empty_directory)
    ≡ some (record parsed {
      include_dirs = points "-x" ∷ [];
      defines = [];
      flags = points "c" ∷ parsed.flags;
    })
unfolding to_args parse scan conclude blank language_of take_value take_arg classify
    detect_compiler_type
empty_directory_takes_next = refl

abbrev hostile : List Bytes
hostile = map points ("-O2" ∷ "-B" ∷ "/tmp/evil" ∷ "-I../../etc" ∷ "a.c" ∷ "x;rm" ∷ "@file" ∷ [])

hostile_is_sanitized : sanitize_compiler_args false hostile ≡ record {
  sanitized = map points ("-O2" ∷ "a.c" ∷ "@file" ∷ []);
  removed = map points ("-B" ∷ "/tmp/evil" ∷ "-I../../etc" ∷ "x;rm" ∷ []);
}
unfolding sanitize_compiler_args sanitize_from is_removed takes_value file_under
hostile_is_sanitized = refl

sanitize_compiler_args_lem_example :
    let s = sanitize_compiler_args false hostile in
    Permᴰ (s.sanitized ++ s.removed) hostile
    × All (IsClean false) s.sanitized
    × (All (IsClean false) hostile → s ≡ record { sanitized = hostile; removed = [] })
    × (sanitize_compiler_args false s.sanitized ≡ record { sanitized = s.sanitized; removed = [] })
sanitize_compiler_args_lem_example = sanitize_compiler_args_lem false hostile
