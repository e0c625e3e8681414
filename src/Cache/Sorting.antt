-- ===== src/Cache/Sorting.antt =====
-- The order in which flags and defines are given does not matter for the key of internal/cache/key.go.
use hybridgrid.Prelude.{ℕ, ◌≡◌, refl, ◌∙◌, true, false, List, [], ◌∷◌, arith}
use mathlib.Core.List.{Permᴰ}
use hybridgrid.Cache.Key.{
  Bytes, leb_bytes, place, sort_strings, CompilationKey, key_builder, add_sorted_strings, build,
}

leb_bytes_total : (s t : Bytes) → leb_bytes s t ≡ false → leb_bytes t s ≡ true
unfolding leb_bytes
leb_bytes_total [] t h = cc
leb_bytes_total (c ∷ s) [] h = refl
leb_bytes_total (c ∷ s) (d ∷ t) h = ground (arith, leb_bytes_total s t)

leb_bytes_antisym : (s t : Bytes) → leb_bytes s t ≡ true → leb_bytes t s ≡ true → s ≡ t
unfolding leb_bytes
leb_bytes_antisym [] [] h k = refl
leb_bytes_antisym [] (d ∷ t) h k = cc
leb_bytes_antisym (c ∷ s) [] h k = cc
leb_bytes_antisym (c ∷ s) (d ∷ t) h k = ground (arith, leb_bytes_antisym s t)

leb_bytes_trans :
    (s t u : Bytes) → leb_bytes s t ≡ true → leb_bytes t u ≡ true → leb_bytes s u ≡ true
unfolding leb_bytes
leb_bytes_trans [] t u h k = refl
leb_bytes_trans (c ∷ s) [] u h k = cc
leb_bytes_trans (c ∷ s) (d ∷ t) [] h k = cc
leb_bytes_trans (c ∷ s) (d ∷ t) (e ∷ u) h k = ground (arith, leb_bytes_trans s t u)

place-place : (s t : Bytes) (l : List Bytes) → place s (place t l) ≡ place t (place s l)
unfolding place
place-place s t [] = ground (arith, leb_bytes_total s t, leb_bytes_total t s, leb_bytes_antisym s t)
place-place s t (x ∷ l) = ground (
  arith,
  leb_bytes_total s t,
  leb_bytes_antisym s t,
  leb_bytes_trans s t x,
  leb_bytes_trans t s x,
  leb_bytes_trans s x t,
  leb_bytes_trans t x s,
  leb_bytes_total s x,
  leb_bytes_total t x,
  place-place s t l,
)

pub sort_strings-Perm : {xs ys : List Bytes} → Permᴰ xs ys → sort_strings xs ≡ sort_strings ys
unfolding sort_strings
sort_strings-Perm Permᴰ.nil = refl
sort_strings-Perm (Permᴰ.cons {a} {b} {l₁} {l₂} e p) = cc (sort_strings-Perm p)
sort_strings-Perm (Permᴰ.swap {a} {b} {a' = c} {b' = d} {l} e f) =
    rw (e, f) (place-place d c (sort_strings l))
sort_strings-Perm (Permᴰ.trans p q) = sort_strings-Perm p ∙ sort_strings-Perm q

-- Compilations whose flags and whose defines are the same up to their order have the same key, for
-- every hash function.
pub build-Perm :
    (sum64 : Bytes → ℕ) (c : CompilationKey) (flags defines : List Bytes)
    → Permᴰ c.flags flags
    → Permᴰ c.defines defines
    → build sum64 (record c { flags = flags; defines = defines }) ≡ build sum64 c
unfolding build key_builder add_sorted_strings
build-Perm sum64 c flags defines p q = rw (sort_strings-Perm p, sort_strings-Perm q)
