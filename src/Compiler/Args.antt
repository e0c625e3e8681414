-- ===== src/Compiler/Args.antt =====
-- `ParsedArgs` of internal/compiler/parser.go. The loop of `Parse` looks at the next argument where an
-- option takes a value; here the option is kept until that argument comes, and forgotten at the end.
use hybridgrid.Prelude.{
  Bool, true, false, not, ◌&&◌, ◌||◌, Option, none, some, List, [], ◌∷◌, ◌++◌, map, if◌then◌else◌,
  is_empty,
}
use hybridgrid.Prelude.Text.{points, same_points, has_prefix, from}
use hybridgrid.Compiler.Files.{
  Bytes, CompilerType, is_source_file, is_object_file, detect_language, detect_compiler_type,
}

pub record ParsedArgs : Type 0 where
  pub compiler : Bytes
  pub compiler_type : CompilerType
  pub input_files : List Bytes
  pub output_file : Bytes
  pub include_dirs : List Bytes
  pub defines : List Bytes
  pub flags : List Bytes
  pub is_compile_only : Bool
  pub is_preprocess : Bool
  pub is_link : Bool
  pub target_arch : Bytes
  pub language : Bytes
  pub standard : Bytes
  pub optimization : Bytes

-- The cases of the switch; those that end in `_next` take the next argument.
pub data Arg : Type 0 where
  compile_only preprocess output_next include_next define_next language_next arch_next : Arg
  output_here include_here define_here language_here : Bytes → Arg
  standard_is arch_is optimize : Bytes → Arg
  plain_flag input : Arg

abbrev is : Bytes → Bytes → Bool
is arg option = same_points arg option

-- The switch, in its order.
unfoldable pub classify : Bytes → Arg
unfolding same_points has_prefix from is_source_file is_object_file
classify arg =
    if is arg (points "-c")
    then compile_only
    else if is arg (points "-E")
    then preprocess
    else if is arg (points "-S")
    then plain_flag
    else if is arg (points "-o")
    then output_next
    else if has_prefix arg (points "-o")
    then output_here (from 2 arg)
    else if is arg (points "-I")
    then include_next
    else if has_prefix arg (points "-I")
    then include_here (from 2 arg)
    else if is arg (points "-D")
    then define_next
    else if has_prefix arg (points "-D")
    then define_here (from 2 arg)
    else if is arg (points "-x")
    then language_next
    else if has_prefix arg (points "-x")
    then language_here (from 2 arg)
    else if has_prefix arg (points "-std=")
    then standard_is (from 5 arg)
    else if is arg (points "-march") || is arg (points "-mtune")
    then arch_next
    else if has_prefix arg (points "-march=")
    then arch_is (from 7 arg)
    else if has_prefix arg (points "-O")
    then optimize (from 2 arg)
    else if has_prefix arg (points "-")
    then plain_flag
    else if is_source_file arg || is_object_file arg
    then input
    else plain_flag

-- The option that waits for its value; `-march` and `-mtune` are kept with their own text.
pub data Pending : Type 0 where
  nothing wants_output wants_include wants_define wants_language : Pending
  wants_arch : Bytes → Pending

pub record Scan : Type 0 where
  pub parsed : ParsedArgs
  pub pending : Pending

abbrev pub add_flag : Bytes → ParsedArgs → ParsedArgs
add_flag arg p = record p { flags = p.flags ++ arg ∷ [] }

unfoldable pub take_arg : Bytes → Arg → ParsedArgs → Scan
take_arg arg compile_only p = record {
  parsed = add_flag arg (record p { is_compile_only = true });
  pending = nothing;
}
take_arg arg preprocess p = record {
  parsed = add_flag arg (record p { is_preprocess = true });
  pending = nothing;
}
take_arg arg output_next p = record { parsed = p; pending = wants_output }
take_arg arg (output_here v) p = record { parsed = record p { output_file = v }; pending = nothing }
take_arg arg include_next p = record { parsed = p; pending = wants_include }
take_arg arg (include_here v) p = record {
  parsed = record p { include_dirs = p.include_dirs ++ v ∷ [] };
  pending = nothing;
}
take_arg arg define_next p = record { parsed = p; pending = wants_define }
take_arg arg (define_here v) p = record {
  parsed = record p { defines = p.defines ++ v ∷ [] };
  pending = nothing;
}
take_arg arg language_next p = record { parsed = p; pending = wants_language }
take_arg arg (language_here v) p = record { parsed = record p { language = v }; pending = nothing }
take_arg arg (standard_is v) p = record {
  parsed = add_flag arg (record p { standard = v });
  pending = nothing;
}
take_arg arg arch_next p = record { parsed = p; pending = wants_arch arg }
take_arg arg (arch_is v) p = record {
  parsed = add_flag arg (record p { target_arch = v });
  pending = nothing;
}
take_arg arg (optimize v) p = record {
  parsed = add_flag arg (record p { optimization = v });
  pending = nothing;
}
take_arg arg plain_flag p = record { parsed = add_flag arg p; pending = nothing }
take_arg arg input p = record {
  parsed = record p { input_files = p.input_files ++ arg ∷ [] };
  pending = nothing;
}

unfoldable pub take_value : Bytes → Pending → ParsedArgs → Scan
unfolding classify take_arg
take_value arg nothing p = take_arg arg (classify arg) p
take_value arg wants_output p = record {
  parsed = record p { output_file = arg };
  pending = nothing;
}
take_value arg wants_include p = record {
  parsed = record p { include_dirs = p.include_dirs ++ arg ∷ [] };
  pending = nothing;
}
take_value arg wants_define p = record {
  parsed = record p { defines = p.defines ++ arg ∷ [] };
  pending = nothing;
}
take_value arg wants_language p = record { parsed = record p { language = arg }; pending = nothing }
take_value arg (wants_arch flag) p = record {
  parsed = record p { target_arch = arg; flags = p.flags ++ flag ∷ arg ∷ [] };
  pending = nothing;
}

-- The loop.
unfoldable pub scan : List Bytes → Scan → Scan
unfolding take_value
scan [] s = s
scan (arg ∷ args) s = scan args (take_value arg s.pending s.parsed)

unfoldable pub blank : Bytes → ParsedArgs
unfolding detect_compiler_type
blank compiler = record {
  compiler = compiler;
  compiler_type = detect_compiler_type compiler;
  input_files = [];
  output_file = [];
  include_dirs = [];
  defines = [];
  flags = [];
  is_compile_only = false;
  is_preprocess = false;
  is_link = false;
  target_arch = [];
  language = [];
  standard = [];
  optimization = [];
}

unfoldable pub language_of : Bytes → List Bytes → Bytes
unfolding detect_language
language_of given [] = given
language_of given (f ∷ fs) = if is_empty given then detect_language f else given

-- What follows the loop.
unfoldable pub conclude : ParsedArgs → ParsedArgs
unfolding language_of
conclude p = record p {
  is_link = not p.is_compile_only && (not p.is_preprocess && not (is_empty p.input_files));
  language = language_of p.language p.input_files;
}

unfoldable pub parse : List Bytes → Option ParsedArgs
unfolding scan blank conclude
parse [] = none
parse (compiler ∷ args) =
    some
      (conclude (Scan.parsed (scan args (record { parsed = blank compiler; pending = nothing }))))

unfoldable pub is_distributable : ParsedArgs → Bool
unfolding is_source_file
is_distributable p = elim p.input_files [
  | [] ↦ false
  | f ∷ fs ↦ p.is_compile_only && (is_empty fs && is_source_file f)
]

unfoldable pub language_args : Bytes → List Bytes
language_args l = if is_empty l then [] else points "-x" ∷ l ∷ []

unfoldable pub output_args : Bytes → List Bytes
output_args o = if is_empty o then [] else points "-o" ∷ o ∷ []

unfoldable pub to_args : ParsedArgs → List Bytes
unfolding language_args output_args
to_args p =
    p.compiler
    ∷ (map (λ v. points "-I" ++ v) p.include_dirs
        ++ (map (λ v. points "-D" ++ v) p.defines
            ++ (language_args p.language
                ++ (p.flags ++ (p.input_files ++ output_args p.output_file)))))
