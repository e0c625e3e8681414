-- ===== src/Cache/Writes.antt =====
-- What `Put` of internal/cache/store.go guarantees.
use hybridgrid.Prelude.{
  ap, none, false, Option-cases, Bool-cases, if◌then◌else◌, ℕ, ◌*◌, ◌<◌, String, ◌≡◌, refl, ◌⊎◌,
  inl, inr, Bool, true, some,
}
use hybridgrid.Prelude.Int.{word, half64, leb_ℤ}
use hybridgrid.Cache.Store.{
  int64, Store, StoreError, invalid_key, no_directory, no_temp_file, not_written, not_renamed,
  index_not_saved, saving, PutAnswers, commit, evict_if_needed, put, wrote, failed, write_file,
  settle,
}
use hybridgrid.Cache.Naming.{validate_cache_key}
use hybridgrid.Cache.Accounting.{IsValid, evict_if_needed-IsValid, commit-IsValid}
use hybridgrid.Cache.Eviction.{evict_if_needed-bound}

saving_lem : (saved : Bool) → saving saved ≡ (if saved then none else some index_not_saved)
unfolding saving
saving_lem true = refl
saving_lem false = refl

-- Which answer of the file system ends a `Put`, and with what error; all before it were good.
pub data Refused (on_windows : Bool) (key : String) (a : PutAnswers) : StoreError → Type 0 where
  bad_key : validate_cache_key on_windows key ≡ false → Refused on_windows key a invalid_key
  unmade :
      validate_cache_key on_windows key ≡ true
      → a.made_directory ≡ false
      → Refused on_windows key a no_directory
  uncreated :
      validate_cache_key on_windows key ≡ true
      → a.made_directory ≡ true
      → a.created ≡ false
      → Refused on_windows key a no_temp_file
  uncopied :
      validate_cache_key on_windows key ≡ true
      → a.made_directory ≡ true
      → a.created ≡ true
      → a.copied ≡ none
      → Refused on_windows key a not_written
  unrenamed :
      (n : ℕ)
      → validate_cache_key on_windows key ≡ true
      → a.made_directory ≡ true
      → a.created ≡ true
      → a.copied ≡ some n
      → a.renamed ≡ false
      → Refused on_windows key a not_renamed

-- All answers up to the rename were good, and `n` is the length of the copy.
pub record Placed (on_windows : Bool) (key : String) (a : PutAnswers) (n : ℕ) : Type 0 where
  pub accepted : validate_cache_key on_windows key ≡ true
  pub made : a.made_directory ≡ true
  pub created : a.created ≡ true
  pub copied : a.copied ≡ some n
  pub renamed : a.renamed ≡ true

write_file_lem :
    (on_windows : Bool) (key : String) (a : PutAnswers)
    → ((e : StoreError) × (write_file on_windows key a ≡ failed e) × Refused on_windows key a e)
      ⊎ ((n : ℕ) × (write_file on_windows key a ≡ wrote n) × Placed on_windows key a n)
unfolding write_file
write_file_lem on_windows key a = elim (Bool-cases (validate_cache_key on_windows key)) [
  | inr v ↦ inl (invalid_key, rw (v, write_file) refl, bad_key v)
  | inl v ↦ elim (Bool-cases a.made_directory) [
    | inr m ↦ inl (no_directory, rw (v, write_file) (rw m refl), unmade v m)
    | inl m ↦ elim (Bool-cases a.created) [
      | inr c ↦ inl (no_temp_file, rw (v, write_file) (rw (m, c) refl), uncreated v m c)
      | inl c ↦ elim (Option-cases a.copied) [
        | inl n ↦ inl (not_written, rw (v, write_file) (rw (m, c, n) refl), uncopied v m c n)
        | inr (n, w) ↦ elim (Bool-cases a.renamed) [
          | inr r ↦
              inl (not_renamed, rw (v, write_file) (rw (m, c, w, r) refl), unrenamed n v m c w r)
          | inl r ↦ inr (
            n,
            rw (v, write_file) (rw (m, c, w, r) refl),
            record { accepted = v; made = m; created = c; copied = w; renamed = r },
          )
        ]
      ]
    ]
  ]
]

-- A `Put` fails, and leaves the index as it was, with the error of the first answer that is not good: the
-- key is refused, or the directory, the temporary file, the copy or the rename fails. If all are good it
-- commits the entry and evicts, and the total size is then at most the maximum; it fails then exactly if
-- the index is not saved. A valid index stays valid on every path. (The index is valid, eight times the
-- maximum is an int64 number, and so is the length of the copy.)
pub put_lem :
    (now : ℕ) (on_windows : Bool) (key : String) (a : PutAnswers) (s : Store)
    → IsValid s
    → s.max_size * 8 < half64
    → ((n : ℕ) → a.copied ≡ some n → n < word)
    → let r = put now on_windows key a s in
      IsValid r.0
      × (((x : StoreError) × (r ≡ (s, some x)) × Refused on_windows key a x)
          ⊎ ((n : ℕ) × Placed on_windows key a n
              × (r ≡ (
                evict_if_needed (commit now key n s),
                if a.saved then none else some index_not_saved,
              ))
              × (leb_ℤ (int64 r.0.total_size) (int64 s.max_size) ≡ true)))
unfolding put settle saving
put_lem now on_windows key a s v h small = elim (write_file_lem on_windows key a) [
  | inl (e, f, why) ↦ rw (f, put) (v, inl (e, refl, why))
  | inr (n, f, good) ↦
      let kept = commit-IsValid now key n s (small n good.copied) v in
      rw (f, put)
        (
          evict_if_needed-IsValid (commit now key n s) kept,
          inr (
            n,
            good,
            ap (λ e. (evict_if_needed (commit now key n s), e)) (saving_lem a.saved),
            (evict_if_needed-bound (commit now key n s) kept h).0,
          ),
        )
]
