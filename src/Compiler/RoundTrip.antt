-- ===== src/Compiler/RoundTrip.antt =====
-- `Parse` reads back what `ToArgs` of internal/compiler/parser.go writes.
use hybridgrid.Prelude.{
  ◌≡◌, refl, sym, ap, subst, ◌∙◌, false, some, List, [], ◌∷◌, ◌++◌, map, is_empty, All, arith,
}
use hybridgrid.Prelude.Text.{points, same_points, has_prefix, from}
use mathlib.Core.List.{append-nil, append_assoc}
use hybridgrid.Compiler.Files.{Bytes, detect_compiler_type}
use hybridgrid.Compiler.Args.{
  ParsedArgs, classify, Scan, take_arg, take_value, scan, blank, language_of, conclude, parse,
  language_args, output_args, to_args,
}
use hybridgrid.Compiler.Replay.{
  ready, with_flags, AreInputs, Good, scan-append, scan-Good, blank-Good,
}

abbrev pub AreFull : List Bytes → Type 0
AreFull vs = All (λ v. is_empty v ≡ false) vs

scan-includes :
    (vs : List Bytes) (q : ParsedArgs)
    → AreFull vs
    → scan (map (λ v. points "-I" ++ v) vs) (ready q)
      ≡ ready (record q { include_dirs = q.include_dirs ++ vs })
unfolding scan take_value take_arg classify same_points has_prefix from
scan-includes [] q h =
    ap (λ d. ready (record q { include_dirs = d })) (sym (append-nil q.include_dirs))
scan-includes ([] ∷ vs) q h = cc h.0
scan-includes ((c ∷ v) ∷ vs) q h =
    scan-includes vs (record q { include_dirs = q.include_dirs ++ (c ∷ v) ∷ [] }) h.1
    ∙ ap (λ d. ready (record q { include_dirs = d }))
        (append_assoc q.include_dirs ((c ∷ v) ∷ []) vs)

scan-defines :
    (vs : List Bytes) (q : ParsedArgs)
    → AreFull vs
    → scan (map (λ v. points "-D" ++ v) vs) (ready q)
      ≡ ready (record q { defines = q.defines ++ vs })
unfolding scan take_value take_arg classify same_points has_prefix from
scan-defines [] q h = ap (λ d. ready (record q { defines = d })) (sym (append-nil q.defines))
scan-defines ([] ∷ vs) q h = cc h.0
scan-defines ((c ∷ v) ∷ vs) q h =
    scan-defines vs (record q { defines = q.defines ++ (c ∷ v) ∷ [] }) h.1
    ∙ ap (λ d. ready (record q { defines = d })) (append_assoc q.defines ((c ∷ v) ∷ []) vs)

scan-inputs :
    (fs : List Bytes) (q : ParsedArgs)
    → AreInputs fs
    → scan fs (ready q) ≡ ready (record q { input_files = q.input_files ++ fs })
unfolding scan take_value take_arg
scan-inputs [] q h = ap (λ d. ready (record q { input_files = d })) (sym (append-nil q.input_files))
scan-inputs (f ∷ fs) q h = rw (h.0) (
    scan-inputs fs (record q { input_files = q.input_files ++ f ∷ [] }) h.1
    ∙ ap (λ d. ready (record q { input_files = d })) (append_assoc q.input_files (f ∷ []) fs))

scan-language :
    (l : Bytes) (q : ParsedArgs)
    → q.language ≡ []
    → scan (language_args l) (ready q) ≡ ready (record q { language = l })
unfolding scan take_value take_arg classify same_points has_prefix from language_args
scan-language [] q h = ap (λ d. ready (record q { language = d })) h
scan-language (c ∷ l) q h = refl

scan-output :
    (o : Bytes) (q : ParsedArgs)
    → q.output_file ≡ []
    → scan (output_args o) (ready q) ≡ ready (record q { output_file = o })
unfolding scan take_value take_arg classify same_points has_prefix from output_args
scan-output [] q h = ap (λ d. ready (record q { output_file = d })) h
scan-output (c ∷ o) q h = refl

language_of-language_of :
    (l : Bytes) (fs : List Bytes) → language_of (language_of l fs) fs ≡ language_of l fs
unfolding language_of
language_of-language_of l [] = refl
language_of-language_of [] (f ∷ fs) = ground arith
language_of-language_of (c ∷ l) (f ∷ fs) = refl

after_part :
    (xs ys : List Bytes) (s s' t : Scan) → scan xs s ≡ s' → scan ys s' ≡ t → scan (xs ++ ys) s ≡ t
after_part xs ys s s' t e h = scan-append xs ys s ∙ ap (scan ys) e ∙ h

module _ (c : Bytes) (p : ParsedArgs) (g : Good c p) (l : Bytes) (i : AreFull p.include_dirs)
    (d : AreFull p.defines) where
  with_includes : ParsedArgs
  with_includes = record (blank c) { include_dirs = p.include_dirs }

  with_defines : ParsedArgs
  with_defines = record with_includes { defines = p.defines }

  with_language : ParsedArgs
  with_language = record with_defines { language = l }

  with_inputs : ParsedArgs
  with_inputs = record (with_flags p with_language) { input_files = p.input_files }

  reread :
      scan
        (map (λ v. points "-I" ++ v) p.include_dirs
          ++ (map (λ v. points "-D" ++ v) p.defines
              ++ (language_args l ++ (p.flags ++ (p.input_files ++ output_args p.output_file)))))
        (ready (blank c))
      ≡ ready (record p { language = l })
  unfolding blank with_includes with_defines with_language with_inputs
  reread = after_part _ _ _ (ready with_includes) _ (scan-includes p.include_dirs (blank c) i) (
      after_part _ _ _ (ready with_defines) _ (scan-defines p.defines with_includes d) (
        after_part _ _ _ (ready with_language) _ (scan-language l with_defines refl) (
          after_part _ _ _ (ready (with_flags p with_language)) _ (g.replays with_language) (
            after_part _ _ _ (ready with_inputs) _
              (scan-inputs p.input_files (with_flags p with_language) g.inputs)
              (scan-output p.output_file with_inputs refl ∙ λ j. ready (record p {
                compiler = sym g.named j;
                compiler_type = sym g.typed j;
                is_link = sym g.unlinked j;
                language = l;
              }))))))

reread_all :
    (c : Bytes) (p : ParsedArgs)
    → Good c p
    → AreFull p.include_dirs
    → AreFull p.defines
    → parse (to_args (conclude p)) ≡ some (conclude p)
unfolding parse to_args conclude
reread_all c p g i d =
    let l = language_of p.language p.input_files in
    let own : Good p.compiler p = record {
      named = refl;
      typed = g.typed ∙ ap detect_compiler_type (sym g.named);
      unlinked = g.unlinked;
      replays = g.replays;
      inputs = g.inputs;
    } in
    ap (λ s. some (conclude (Scan.parsed s))) (reread p.compiler p own l i d)
    ∙ ap (λ k. some (record (conclude p) { language = k }))
        (language_of-language_of p.language p.input_files)

-- What `Parse` makes of a command line is what it makes of the arguments that `ToArgs` writes for it: compiler,
-- files, options, flags in their order, language and kind of work. (No directory and no macro is the
-- empty text, as with `-I ""`, which `ToArgs` would write as an option that takes the next argument.)
pub parse-to_args :
    (args : List Bytes) (p : ParsedArgs)
    → parse args ≡ some p
    → AreFull p.include_dirs
    → AreFull p.defines
    → parse (to_args p) ≡ some p
unfolding parse conclude
parse-to_args [] p h i d = cc
parse-to_args (c ∷ args) p h i d =
    let read = Scan.parsed (scan args (ready (blank c))) in
    let same : conclude read ≡ p = cc h in
    subst
      (λ x.
        AreFull (ParsedArgs.include_dirs x)
        → AreFull (ParsedArgs.defines x)
        → parse (to_args x) ≡ some x)
      same (reread_all c read (scan-Good c args (ready (blank c)) (blank-Good c) tt)) i d
