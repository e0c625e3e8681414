-- ===== src/Compiler/Replay.antt =====
-- The flags that `Parse` of internal/compiler/parser.go keeps say again what they said.
use hybridgrid.Prelude.{◌≡◌, refl, ap, ◌∙◌, false, List, [], ◌∷◌, ◌++◌, All}
use hybridgrid.Compiler.Files.{Bytes, detect_compiler_type}
use hybridgrid.Compiler.Args.{
  ParsedArgs, Arg, compile_only, preprocess, output_next, include_next, define_next, language_next,
  arch_next, output_here, include_here, define_here, language_here, standard_is, arch_is, optimize,
  plain_flag, input, classify, Pending, nothing, wants_output, wants_include, wants_define,
  wants_language, wants_arch, Scan, take_arg, take_value, scan, blank,
}

abbrev pub ready : ParsedArgs → Scan
ready p = record { parsed = p; pending = nothing }

-- The fields that the flags determine, from the one; all others from the other.
abbrev pub with_flags : ParsedArgs → ParsedArgs → ParsedArgs
with_flags p q = record q {
  flags = p.flags;
  is_compile_only = p.is_compile_only;
  is_preprocess = p.is_preprocess;
  target_arch = p.target_arch;
  standard = p.standard;
  optimization = p.optimization;
}

-- Reading the flags again gives their fields again, whatever came before.
abbrev pub Replays : ParsedArgs → Type 0
Replays p =
    (q : ParsedArgs) → scan p.flags (ready (with_flags (blank []) q)) ≡ ready (with_flags p q)

abbrev pub Waits : Pending → Type 0
Waits (wants_arch flag) = classify flag ≡ arch_next
Waits _ = Unit

abbrev pub AreInputs : List Bytes → Type 0
AreInputs fs = All (λ f. classify f ≡ input) fs

pub record Good (compiler : Bytes) (p : ParsedArgs) : Type 0 where
  pub named : p.compiler ≡ compiler
  pub typed : p.compiler_type ≡ detect_compiler_type compiler
  pub unlinked : p.is_link ≡ false
  pub replays : Replays p
  pub inputs : AreInputs p.input_files

pub scan-append : (xs ys : List Bytes) (s : Scan) → scan (xs ++ ys) s ≡ scan ys (scan xs s)
unfolding scan
scan-append [] ys s = refl
scan-append (x ∷ xs) ys s = scan-append xs ys (take_value x s.pending s.parsed)

All-snoc {ℓ κ} :
    {A : Type ℓ} (P : A → Type κ) (xs : List A) (x : A) → All P xs → P x → All P (xs ++ x ∷ [])
All-snoc P [] x h p = (p, h)
All-snoc P (y ∷ xs) x h p = (h.0, All-snoc P xs x h.1 p)

-- One more flag.
push :
    (arg : Bytes) (p p' : ParsedArgs)
    → p'.flags ≡ p.flags ++ arg ∷ []
    → ((q : ParsedArgs) → take_value arg nothing (with_flags p q) ≡ ready (with_flags p' q))
    → Replays p
    → Replays p'
unfolding scan
push arg p p' e h r q =
    let start = ready (with_flags (blank []) q) in
    ap (λ flags. scan flags start) e ∙ scan-append p.flags (arg ∷ []) start ∙ rw (r q) (h q)

push_arch :
    (flag arg : Bytes) (p : ParsedArgs)
    → classify flag ≡ arch_next
    → Replays p
    → Replays (record p { target_arch = arg; flags = p.flags ++ flag ∷ arg ∷ [] })
unfolding scan take_value take_arg
push_arch flag arg p e r q =
    rw (scan-append p.flags (flag ∷ arg ∷ []) (ready (with_flags (blank []) q)), r q)
      (rw (e, take_value) refl)

module _ (c : Bytes) (p : ParsedArgs) (g : Good c p) where
  -- A change of a field that no flag is about.
  other_field :
      (p' : ParsedArgs)
      → p'.compiler ≡ p.compiler
      → p'.compiler_type ≡ p.compiler_type
      → p'.is_link ≡ p.is_link
      → Replays p'
      → AreInputs p'.input_files
      → Good c p'
  other_field p' a b l r i = record {
    named = a ∙ g.named;
    typed = b ∙ g.typed;
    unlinked = l ∙ g.unlinked;
    replays = r;
    inputs = i;
  }

  -- An argument that is kept as a flag.
  flagged :
      (arg : Bytes) (k : Arg)
      → classify arg ≡ k
      → (take_arg arg k p).parsed.flags ≡ p.flags ++ arg ∷ []
      → ((q : ParsedArgs)
          → take_arg arg k (with_flags p q) ≡ ready (with_flags (take_arg arg k p).parsed q))
      → (take_arg arg k p).parsed.compiler ≡ p.compiler
      → (take_arg arg k p).parsed.compiler_type ≡ p.compiler_type
      → (take_arg arg k p).parsed.is_link ≡ p.is_link
      → AreInputs (take_arg arg k p).parsed.input_files
      → Good c (take_arg arg k p).parsed
  unfolding take_value
  flagged arg k e flags same a b l i =
      other_field (take_arg arg k p).parsed a b l
        (push arg p (take_arg arg k p).parsed flags
          (λ q. ap (λ j. take_arg arg j (with_flags p q)) e ∙ same q) g.replays)
        i

  take_arg-Good :
      (arg : Bytes) (k : Arg)
      → classify arg ≡ k
      → Good c (take_arg arg k p).parsed × Waits (take_arg arg k p).pending
  unfolding take_arg take_value
  take_arg-Good arg compile_only e =
      (flagged arg compile_only e refl (λ q. refl) refl refl refl g.inputs, tt)
  take_arg-Good arg preprocess e =
      (flagged arg preprocess e refl (λ q. refl) refl refl refl g.inputs, tt)
  take_arg-Good arg (standard_is v) e =
      (flagged arg (standard_is v) e refl (λ q. refl) refl refl refl g.inputs, tt)
  take_arg-Good arg (arch_is v) e =
      (flagged arg (arch_is v) e refl (λ q. refl) refl refl refl g.inputs, tt)
  take_arg-Good arg (optimize v) e =
      (flagged arg (optimize v) e refl (λ q. refl) refl refl refl g.inputs, tt)
  take_arg-Good arg plain_flag e =
      (flagged arg plain_flag e refl (λ q. refl) refl refl refl g.inputs, tt)
  take_arg-Good arg output_next e = (g, tt)
  take_arg-Good arg include_next e = (g, tt)
  take_arg-Good arg define_next e = (g, tt)
  take_arg-Good arg language_next e = (g, tt)
  take_arg-Good arg arch_next e = (g, e)
  take_arg-Good arg (output_here v) e = (other_field _ refl refl refl g.replays g.inputs, tt)
  take_arg-Good arg (include_here v) e = (other_field _ refl refl refl g.replays g.inputs, tt)
  take_arg-Good arg (define_here v) e = (other_field _ refl refl refl g.replays g.inputs, tt)
  take_arg-Good arg (language_here v) e = (other_field _ refl refl refl g.replays g.inputs, tt)
  take_arg-Good arg input e = (
    other_field _ refl refl refl g.replays
        (All-snoc (λ f. classify f ≡ input) p.input_files arg g.inputs e),
    tt,
  )

  take_value-Good :
      (arg : Bytes) (waits : Pending)
      → Waits waits
      → Good c (take_value arg waits p).parsed × Waits (take_value arg waits p).pending
  unfolding take_value
  take_value-Good arg nothing e = take_arg-Good arg (classify arg) refl
  take_value-Good arg wants_output e = (other_field _ refl refl refl g.replays g.inputs, tt)
  take_value-Good arg wants_include e = (other_field _ refl refl refl g.replays g.inputs, tt)
  take_value-Good arg wants_define e = (other_field _ refl refl refl g.replays g.inputs, tt)
  take_value-Good arg wants_language e = (other_field _ refl refl refl g.replays g.inputs, tt)
  take_value-Good arg (wants_arch flag) e =
      (other_field _ refl refl refl (push_arch flag arg p e g.replays) g.inputs, tt)

pub scan-Good :
    (c : Bytes) (args : List Bytes) (s : Scan)
    → Good c s.parsed
    → Waits s.pending
    → Good c (scan args s).parsed
unfolding scan
scan-Good c [] s g w = g
scan-Good c (arg ∷ args) s g w =
    let (g', w') = take_value-Good c s.parsed g arg s.pending w in
    scan-Good c args (take_value arg s.pending s.parsed) g' w'

pub blank-Good : (c : Bytes) → Good c (blank c)
unfolding blank scan
blank-Good c = record {
  named = refl;
  typed = refl;
  unlinked = refl;
  replays = λ q. refl;
  inputs = tt;
}
