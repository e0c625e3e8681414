-- ===== src/Cache/Separation.antt =====
-- What the key of internal/cache/key.go tells apart.
use hybridgrid.Prelude.{ℕ, ◌≡◌, ◌≢◌, refl, sym, ◌∙◌, ap, List, [], ◌∷◌, ◌++◌, All}
use hybridgrid.Cache.Key.{
  Bytes, sort_strings, KeyBuilder, new_key_builder, add_bytes, add_string, add_strings,
  add_sorted_strings, CompilationKey, key_builder, build, sum, encode_sum,
}

append_assoc {ℓ} : {A : Type ℓ} (xs ys zs : List A) → (xs ++ ys) ++ zs ≡ xs ++ (ys ++ zs)
append_assoc [] ys zs = refl
append_assoc (x ∷ xs) ys zs = ap (λ l. x ∷ l) (append_assoc xs ys zs)

append_nil {ℓ} : {A : Type ℓ} (xs : List A) → xs ++ [] ≡ xs
append_nil [] = refl
append_nil (x ∷ xs) = ap (λ l. x ∷ l) (append_nil xs)

-- Strings, each closed by a zero byte.
abbrev pub frames : List Bytes → Bytes
frames [] = []
frames (s ∷ ss) = s ++ (0 ∷ frames ss)

frames-append : (xs ys : List Bytes) → frames (xs ++ ys) ≡ frames xs ++ frames ys
frames-append [] ys = refl
frames-append (s ∷ xs) ys =
    ap (λ l. s ++ (0 ∷ l)) (frames-append xs ys) ∙ sym (append_assoc s (0 ∷ frames xs) (frames ys))

add_strings-written :
    (ss : List Bytes) (k : KeyBuilder) → (add_strings ss k).written ≡ k.written ++ frames ss
unfolding add_strings add_string add_bytes
add_strings-written [] k = sym (append_nil k.written)
add_strings-written (s ∷ ss) k =
    add_strings-written ss (add_string s k)
    ∙ append_assoc (k.written ++ s) (0 ∷ []) (frames ss)
    ∙ append_assoc k.written s (0 ∷ frames ss)

-- No byte is zero.
abbrev pub NulFree : Bytes → Type 0
NulFree s = All (λ c. c ≢ 0) s

frame-injective :
    (s t x y : Bytes) → NulFree s → NulFree t → s ++ (0 ∷ x) ≡ t ++ (0 ∷ y) → (s ≡ t) × (x ≡ y)
frame-injective [] [] x y hs ht e = (refl, cc)
frame-injective [] (d ∷ t) x y hs ht e = absurd (ht.0 (cc))
frame-injective (c ∷ s) [] x y hs ht e = absurd (hs.0 (cc))
frame-injective (c ∷ s) (d ∷ t) x y hs ht e =
    let (same, rest) = frame-injective s t x y hs.1 ht.1 (cc) in (cc, rest)

frames-nil : (s x : Bytes) → s ++ (0 ∷ x) ≢ []
frames-nil [] x e = cc
frames-nil (c ∷ s) x e = cc

frames-injective :
    (xs ys : List Bytes) → All NulFree xs → All NulFree ys → frames xs ≡ frames ys → xs ≡ ys
frames-injective [] [] hx hy e = refl
frames-injective [] (t ∷ ys) hx hy e = absurd (frames-nil t (frames ys) (sym e))
frames-injective (s ∷ xs) [] hx hy e = absurd (frames-nil s (frames xs) e)
frames-injective (s ∷ xs) (t ∷ ys) hx hy e =
    let (same, rest) = frame-injective s t (frames xs) (frames ys) hx.0 hy.0 e in
    let tails : xs ≡ ys = frames-injective xs ys hx.1 hy.1 rest in cc

-- The strings that a key is made of, in the order in which they are written.
abbrev pub parts : CompilationKey → List Bytes
parts c =
    c.compiler
    ∷ c.compiler_ver
    ∷ c.target_arch
    ∷ (sort_strings c.flags ++ (sort_strings c.defines ++ (c.source_hash ∷ [])))

-- A builder that has written some lists of strings one after the other.
written-four :
    (gs fs ds hs : List Bytes)
    → (add_strings hs (add_strings ds (add_strings fs (add_strings gs new_key_builder)))).written
      ≡ frames (gs ++ (fs ++ (ds ++ hs)))
unfolding new_key_builder
written-four gs fs ds hs =
    let first = add_strings gs new_key_builder in
    let second = add_strings fs first in
    add_strings-written hs (add_strings ds second)
    ∙ ap (λ l. l ++ frames hs) (add_strings-written ds second)
    ∙ ap (λ l. (l ++ frames ds) ++ frames hs) (add_strings-written fs first)
    ∙ ap (λ l. ((l ++ frames fs) ++ frames ds) ++ frames hs)
        (add_strings-written gs new_key_builder)
    ∙ append_assoc (frames gs ++ frames fs) (frames ds) (frames hs)
    ∙ append_assoc (frames gs) (frames fs) (frames ds ++ frames hs)
    ∙ ap (λ l. frames gs ++ (frames fs ++ l)) (sym (frames-append ds hs))
    ∙ ap (λ l. frames gs ++ l) (sym (frames-append fs (ds ++ hs)))
    ∙ sym (frames-append gs (fs ++ (ds ++ hs)))

key_builder-written : (c : CompilationKey) → (key_builder c).written ≡ frames (parts c)
unfolding key_builder add_sorted_strings add_strings
key_builder-written c =
    written-four (c.compiler ∷ c.compiler_ver ∷ c.target_arch ∷ []) (sort_strings c.flags)
      (sort_strings c.defines) (c.source_hash ∷ [])

-- Two compilations that write the same bytes to the hasher have the same compiler, version and target,
-- and the same list of sorted flags, sorted defines and source hash. (No string has a zero byte.)
pub key_builder-injective :
    (c d : CompilationKey)
    → All NulFree (parts c)
    → All NulFree (parts d)
    → (key_builder c).written ≡ (key_builder d).written
    → (c.compiler ≡ d.compiler)
      × (c.compiler_ver ≡ d.compiler_ver)
      × (c.target_arch ≡ d.target_arch)
      × (sort_strings c.flags ++ (sort_strings c.defines ++ (c.source_hash ∷ []))
          ≡ sort_strings d.flags ++ (sort_strings d.defines ++ (d.source_hash ∷ [])))
key_builder-injective c d hc hd e =
    let same : parts c ≡ parts d =
      frames-injective (parts c) (parts d) hc hd
        (sym (key_builder-written c) ∙ e ∙ key_builder-written d) in
    (cc, cc, cc, cc)

-- The key does not tell a flag from a define: where the sorted flags followed by the sorted defines are
-- sorted, the compilation with all of them as flags and no defines has the same key, for every hash
-- function.
pub build-flags_as_defines :
    (sum64 : Bytes → ℕ) (c : CompilationKey)
    → sort_strings (c.flags ++ c.defines) ≡ sort_strings c.flags ++ sort_strings c.defines
    → build sum64 (record c { flags = c.flags ++ c.defines; defines = [] }) ≡ build sum64 c
unfolding build sum sort_strings
build-flags_as_defines sum64 c h =
    ap (λ w. encode_sum (sum64 w))
      (key_builder-written (record c { flags = c.flags ++ c.defines; defines = [] })
        ∙ ap (λ l. frames (c.compiler ∷ c.compiler_ver ∷ c.target_arch ∷ l))
            (ap (λ l. l ++ (c.source_hash ∷ [])) h
              ∙ append_assoc (sort_strings c.flags) (sort_strings c.defines) (c.source_hash ∷ []))
        ∙ sym (key_builder-written c))
