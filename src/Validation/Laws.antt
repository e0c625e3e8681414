-- ===== src/Validation/Laws.antt =====
-- What `SanitizeCompilerArgs` of internal/security/validation/sanitize.go guarantees.
use mathlib.Core.List.{Permᴰ}
use mathlib.Core.List.Permᴰ
use hybridgrid.Prelude.Text.{points, has_prefix, has_part, any, from, same_points, same_points_iff}
use hybridgrid.Prelude.{
  ℕ, arith, ◌==◌, ◌≢◌, Memᴰ, Bool-cases, inl, inr, ◌⊎◌, ◌≡◌, refl, Bool, true, false, ◌&&◌, ◌||◌,
  List, [], ◌∷◌, ◌++◌, All,
}
use hybridgrid.Validation.Windows.{Bytes, contains_path_traversal}
use hybridgrid.Validation.Sanitize.{
  has_shell_meta_chars, dangerous_flags, dangerous_flag_prefixes, shell_meta_characters,
  is_dangerous_flag, is_rejected, Sanitized, file_under, takes_value, is_removed, sanitize_from,
  sanitize_compiler_args,
}

perm-middle {ℓ} : {A : Type ℓ} (x : A) (xs ys : List A) → Permᴰ (xs ++ x ∷ ys) (x ∷ (xs ++ ys))
perm-middle x [] ys = Permᴰ.refl (x ∷ ys)
perm-middle x (y ∷ xs) ys =
    Permᴰ.trans (Permᴰ.cons refl (perm-middle x xs ys)) (Permᴰ.swap refl refl)

both_false : (a b : Bool) → (a || b) ≡ false → (a ≡ false) × (b ≡ false)
both_false true b h = cc
both_false false b h = (refl, h)

neither : (a b : Bool) → a ≡ false → b ≡ false → (a || b) ≡ false
neither a b h k = ground arith

no_flag : (a b c : Bool) → (a || b) ≡ false → (a && c) ≡ false
no_flag true b c h = cc
no_flag false b c h = refl

-- What an argument is that no guard of the loop objects to, in the words of the list of flags, the list
-- of prefixes and the list of characters.
pub record IsClean (on_windows : Bool) (arg : Bytes) : Type 0 where
  pub no_flag : All (λ flag. arg ≢ points flag) dangerous_flags
  pub no_prefix : All (λ prefix. has_prefix arg (points prefix) ≡ false) dangerous_flag_prefixes
  pub no_meta :
      All
        (λ c. ¬ (Memᴰ c arg))
        (b';' ∷ b'|' ∷ b'&' ∷ b'$' ∷ 96 ∷ b'(' ∷ b')' ∷ b'{' ∷ b'}' ∷ b'[' ∷ b']' ∷ b'<' ∷ b'>' ∷ 10
          ∷ 13 ∷ [])
  pub no_traversal :
      (has_prefix arg (points "-I") && contains_path_traversal on_windows (from 2 arg)) ≡ false
  pub no_append : has_part arg (points ">>") ≡ false
  pub no_output : has_part arg (points "> ") ≡ false

any-none :
    {A : Type 0} (p : A → Bool) (P : A → Type 0) (xs : List A)
    → ((x : A) → p x ≡ false → P x)
    → any p xs ≡ false
    → All P xs
unfolding any
any-none p P [] f h = tt
any-none p P (x ∷ xs) f h =
    let (here, there) = both_false (p x) (any p xs) h in (f x here, any-none p P xs f there)

none-any :
    {A : Type 0} (p : A → Bool) (P : A → Type 0) (xs : List A)
    → ((x : A) → P x → p x ≡ false)
    → All P xs
    → any p xs ≡ false
unfolding any
none-any p P [] f h = refl
none-any p P (x ∷ xs) f (h, k) = neither (p x) (any p xs) (f x h) (none-any p P xs f k)

differs : (s t : Bytes) → same_points s t ≡ false → s ≢ t
differs s t h e = let same : same_points s t ≡ true = (same_points_iff s t).1 e in cc

differs-back : (s t : Bytes) → s ≢ t → same_points s t ≡ false
differs-back s t h = elim (Bool-cases (same_points s t)) [
  | inl same ↦ absurd (h ((same_points_iff s t).0 same))
  | inr differ ↦ differ
]

absent : (c : ℕ) (text : Bytes) → any (λ d. c == d) text ≡ false → ¬ Memᴰ c text
unfolding any
absent c [] h m = elim m [ ]
absent c (d ∷ text) h (Memᴰ.head e) = ground arith
absent c (d ∷ text) h (Memᴰ.tail m) = absent c text (both_false (c == d) _ h).1 m

absent-back : (c : ℕ) (text : Bytes) → ¬ Memᴰ c text → any (λ d. c == d) text ≡ false
unfolding any
absent-back c [] h = refl
absent-back c (d ∷ text) h =
    neither (c == d) (any (λ e. c == e) text) (other (Bool-cases (c == d)))
      (absent-back c text (λ m. h (Memᴰ.tail m)))
  where
    other : ((c == d) ≡ true) ⊎ ((c == d) ≡ false) → (c == d) ≡ false
    other (inl same) = absurd (h (Memᴰ.head (ground arith)))
    other (inr differ) = differ

module _ (on_windows : Bool) (arg : Bytes) where
  is_rejected-IsClean : is_rejected on_windows arg ≡ false → IsClean on_windows arg
  unfolding is_rejected is_dangerous_flag has_shell_meta_chars
  is_rejected-IsClean h =
      let (dangerous, rest) = both_false (is_dangerous_flag arg) _ h in
      let (flags, prefixes) =
        both_false (any (λ flag. same_points arg (points flag)) dangerous_flags) _ dangerous in
      let (meta, paths) = both_false (has_shell_meta_chars arg) _ rest in
      let (traversal, ends) =
        both_false (has_prefix arg (points "-I") && contains_path_traversal on_windows (from 2 arg))
          _ paths in
      let (append, output) = both_false (has_part arg (points ">>")) _ ends in
      record {
        no_flag =
            any-none (λ flag. same_points arg (points flag)) (λ flag. arg ≢ points flag)
              dangerous_flags (λ flag e. differs arg (points flag) e) flags;
        no_prefix =
            any-none (λ prefix. has_prefix arg (points prefix))
              (λ prefix. has_prefix arg (points prefix) ≡ false) dangerous_flag_prefixes
              (λ prefix e. e) prefixes;
        no_meta =
            any-none (λ c. any (λ d. c == d) arg) (λ c. ¬ Memᴰ c arg) shell_meta_characters
              (λ c e. absent c arg e) meta;
        no_traversal = traversal;
        no_append = append;
        no_output = output;
      }

  IsClean-is_rejected : IsClean on_windows arg → is_rejected on_windows arg ≡ false
  unfolding is_rejected is_dangerous_flag has_shell_meta_chars
  IsClean-is_rejected h =
      neither (is_dangerous_flag arg) _
        (neither _ _
          (none-any (λ flag. same_points arg (points flag)) (λ flag. arg ≢ points flag)
            dangerous_flags (λ flag e. differs-back arg (points flag) e) h.no_flag)
          (none-any (λ prefix. has_prefix arg (points prefix))
            (λ prefix. has_prefix arg (points prefix) ≡ false) dangerous_flag_prefixes
            (λ prefix e. e) h.no_prefix))
        (neither _ _
          (none-any (λ c. any (λ d. c == d) arg) (λ c. ¬ Memᴰ c arg) shell_meta_characters
            (λ c e. absent-back c arg e) h.no_meta)
          (neither _ _ h.no_traversal (neither _ _ h.no_append h.no_output)))

abbrev pub AreClean : Bool → List Bytes → Type 0
AreClean on_windows args = All (λ arg. is_rejected on_windows arg ≡ false) args

module _ (on_windows : Bool) where
  file_under-AreClean :
      (reject : Bool) (arg : Bytes) (s : Sanitized)
      → (reject ≡ false → is_rejected on_windows arg ≡ false)
      → AreClean on_windows s.sanitized
      → AreClean on_windows (file_under reject arg s).sanitized
  unfolding file_under
  file_under-AreClean true arg s why h = h
  file_under-AreClean false arg s why h = (why refl, h)

  kept-clean :
      (is_value : Bool) (arg : Bytes)
      → is_removed on_windows is_value arg ≡ false
      → is_rejected on_windows arg ≡ false
  unfolding is_removed
  kept-clean true arg h = cc
  kept-clean false arg h = h

  -- A clean argument is no dangerous flag, so no value goes with it.
  clean-kept :
      (arg : Bytes)
      → is_rejected on_windows arg ≡ false
      → (is_removed on_windows false arg ≡ false) × (takes_value false arg ≡ false)
  unfolding is_removed takes_value is_rejected
  clean-kept arg h = (h, no_flag (is_dangerous_flag arg) _ _ h)

  sanitize_from-AreClean :
      (is_value : Bool) (args : List Bytes)
      → AreClean on_windows (sanitize_from on_windows is_value args).sanitized
  unfolding sanitize_from
  sanitize_from-AreClean is_value [] = tt
  sanitize_from-AreClean is_value (arg ∷ args) =
      file_under-AreClean (is_removed on_windows is_value arg) arg
        (sanitize_from on_windows (takes_value is_value arg) args) (kept-clean is_value arg)
        (sanitize_from-AreClean (takes_value is_value arg) args)

  file_under-Perm :
      (reject : Bool) (arg : Bytes) (args : List Bytes) (s : Sanitized)
      → Permᴰ (s.sanitized ++ s.removed) args
      → let s' = file_under reject arg s in Permᴰ (s'.sanitized ++ s'.removed) (arg ∷ args)
  unfolding file_under
  file_under-Perm true arg args s p =
      Permᴰ.trans (perm-middle arg s.sanitized s.removed) (Permᴰ.cons refl p)
  file_under-Perm false arg args s p = Permᴰ.cons refl p

  sanitize_from-Perm :
      (is_value : Bool) (args : List Bytes)
      → let s = sanitize_from on_windows is_value args in Permᴰ (s.sanitized ++ s.removed) args
  unfolding sanitize_from
  sanitize_from-Perm is_value [] = Permᴰ.nil
  sanitize_from-Perm is_value (arg ∷ args) =
      file_under-Perm (is_removed on_windows is_value arg) arg args
        (sanitize_from on_windows (takes_value is_value arg) args)
        (sanitize_from-Perm (takes_value is_value arg) args)

  sanitize_from-clean :
      (args : List Bytes)
      → AreClean on_windows args
      → sanitize_from on_windows false args ≡ record { sanitized = args; removed = [] }
  unfolding sanitize_from file_under
  sanitize_from-clean [] h = refl
  sanitize_from-clean (arg ∷ args) h =
      let (kept, alone) = clean-kept arg h.0 in rw (kept, alone, sanitize_from-clean args h.1) refl

  All-IsClean : (args : List Bytes) → AreClean on_windows args → All (IsClean on_windows) args
  All-IsClean [] h = tt
  All-IsClean (arg ∷ args) (h, k) = (is_rejected-IsClean on_windows arg h, All-IsClean args k)

  All-AreClean : (args : List Bytes) → All (IsClean on_windows) args → AreClean on_windows args
  All-AreClean [] h = tt
  All-AreClean (arg ∷ args) (h, k) = (IsClean-is_rejected on_windows arg h, All-AreClean args k)

  -- Every argument is either kept or removed, once. An argument that is kept is none of the listed flags
  -- and begins with none of the listed prefixes, has no character of a shell and no end of a line, has
  -- no `>>` and no `>` before a blank, and has no path traversal if it begins with `-I`. Each argument
  -- is looked at alone: a path after a lone `-I` is not checked for traversal, and of response files
  -- only `@` alone is listed. Arguments that are all like this are all kept, in their order.
  pub sanitize_compiler_args_lem :
      (args : List Bytes)
      → let s = sanitize_compiler_args on_windows args in
        Permᴰ (s.sanitized ++ s.removed) args
        × All (IsClean on_windows) s.sanitized
        × (All (IsClean on_windows) args → s ≡ record { sanitized = args; removed = [] })
        × (sanitize_compiler_args on_windows s.sanitized
            ≡ record { sanitized = s.sanitized; removed = [] })
  unfolding sanitize_compiler_args
  sanitize_compiler_args_lem args =
      let clean = sanitize_from-AreClean false args in
      (
        sanitize_from-Perm false args,
        All-IsClean _ clean,
        λ h. sanitize_from-clean args (All-AreClean args h),
        sanitize_from-clean _ clean,
      )
