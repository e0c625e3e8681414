-- ===== src/Cache/Index.antt =====
-- The entries that `saveIndex` of internal/cache/store.go hands to encoding/json, and `loadIndex` after
-- they were decoded.
use hybridgrid.Prelude.{
  map, ℕ, ◌+◌, ◌%◌, String, eq_iff, ◌≡◌, refl, sym, ◌∙◌, ap, Option, none, some, List, [], ◌∷◌,
  arith,
}
use hybridgrid.Prelude.Int.{credit, word, ℤ}
use hybridgrid.Prelude.Maps.{lookup, insert, Distinct, values, total, Entries, lookup-insert}
use hybridgrid.Cache.Store.{Entry, Store, index_of, load_entries, load_index, save_index, new_store}
use hybridgrid.Cache.Accounting.{IsValid, Fits, sizes}

-- What is found first.
abbrev pub either_entry : Option Entry → Option Entry → Option Entry
either_entry none o = o
either_entry (some e) o = some e

load_entries-lookup :
    (m : List (String × Entry)) (s : Store)
    → Entries Fits m
    → Distinct m
    → (t : Store) × (load_entries (map some (values m)) s ≡ some t)
      × ((k : String) → lookup k t.entries ≡ either_entry (lookup k m) (lookup k s.entries))
unfolding load_entries lookup
load_entries-lookup [] s f d = (s, refl, λ k. refl)
load_entries-lookup ((i, e) ∷ m) s (here, f) (new, d) =
    let next : Store = record s {
      entries = insert e.key e s.entries;
      total_size = (s.total_size + e.size) % word;
    } in
    let (t, loaded, found) = load_entries-lookup m next f d in
    (
      t,
      loaded,
      λ k.
          let rest = found k in
          ground (
            arith,
            rest,
            here.0,
            new,
            eq_iff i k,
            eq_iff e.key k,
            lookup-insert e.key k e s.entries,
          ),
    )

load_entries-total :
    (m : List (String × Entry)) (s t : Store) (b : ℕ)
    → s.total_size ≡ b % word
    → load_entries (map some (values m)) s ≡ some t
    → t.total_size ≡ (b + sizes m) % word
unfolding load_entries total
load_entries-total [] s t b h e =
    let zero_more : b + 0 ≡ b = omega arith in
    let same : s ≡ t = cc in rw zero_more (ap Store.total_size (sym same) ∙ h)
load_entries-total ((i, e) ∷ m) s t b h l =
    let step : b + e.size + sizes m ≡ b + (e.size + sizes m) = omega arith in
    rw (← step) (load_entries-total m _ t (b + e.size) (credit s.total_size b e.size h) l)

-- If encoding/json gives back the entries that it was handed, a valid index that is saved and loaded
-- into a new cache is found again: every key has the same entry, or none, and the total size is the same.
pub load_index-save_index :
    (max_mb : ℕ) (ttl_hours : ℤ) (s : Store)
    → IsValid s
    → (t : Store) × (new_store max_mb ttl_hours (index_of (map some (save_index s))) ≡ some t)
      × ((k : String) → lookup k t.entries ≡ lookup k s.entries)
      × (t.total_size ≡ s.total_size)
unfolding new_store load_index save_index lookup
load_index-save_index max_mb ttl_hours s v =
    let (t, loaded, found) = load_entries-lookup s.entries _ v.fits v.distinct in
    (
      t,
      loaded,
      λ k. found k ∙ or_nothing (lookup k s.entries),
      load_entries-total s.entries _ t 0 refl loaded
          ∙ ap (λ n. n % word) (from_zero (sizes s.entries))
          ∙ sym v.sum,
    )
  where
    or_nothing : (o : Option Entry) → either_entry o none ≡ o
    or_nothing none = refl
    or_nothing (some e) = refl

    from_zero : (n : ℕ) → 0 + n ≡ n
    from_zero n = omega arith
