-- ===== src/Cache/Accounting.antt =====
-- The size that the index keeps, under any interleaving of the critical sections of
-- internal/cache/store.go.
use hybridgrid.Prelude.{
  ℕ, ◌+◌, ◌-◌, ◌%◌, ◌<◌, String, ◌≡◌, refl, some, List, [], ◌∷◌, length, arith, inl, inr,
  Option-cases, All, eq_iff, if_both,
}
use hybridgrid.Prelude.Int.{word, credit, debit, ℤ, leb_ℤ}
use hybridgrid.Prelude.Maps.{
  lookup, insert, erase, Distinct, insert-Distinct, erase-Distinct, total, total-insert,
  total-erase, lookup-erase, Entries, Entries-insert, Entries-erase, Entries-lookup,
}
use hybridgrid.Cache.Store.{
  int64, load_index, Entry, Store, absent, new_store, commit, forget, delete_entry, touch, clear,
  exchange_sort, evict, low_water, evict_if_needed,
}
use hybridgrid.Cache.Order.{SameTable, exchange_sort-SameTable}

-- The sizes of a table, added up.
abbrev pub sizes : List (String × Entry) → ℕ
sizes m = total (λ e. e.size) m

abbrev pub Fits : String → Entry → Type 0
Fits k e = (k ≡ e.key) × (e.size < word)

-- No key stands twice, each entry stands under its own key, and the size that is kept is the sum of
-- the sizes, as an int64.
pub record IsValid (s : Store) : Type 0 where
  pub distinct : Distinct s.entries
  pub fits : Entries Fits s.entries
  pub sum : s.total_size ≡ sizes s.entries % word

pub forget-IsValid :
    (key : String) (e : Entry) (s : Store)
    → IsValid s
    → lookup key s.entries ≡ some e
    → IsValid (forget key e s)
unfolding forget
forget-IsValid key e s v found =
    let (named, small) : Fits key e = Entries-lookup Fits key e s.entries v.fits found in
    let split : sizes (erase key s.entries) + e.size ≡ sizes s.entries =
      ground (arith, total-erase (λ (x : Entry). x.size) key s.entries v.distinct) in
    record {
      distinct = erase-Distinct key s.entries v.distinct;
      fits = Entries-erase Fits key s.entries v.fits;
      sum = debit s.total_size (sizes (erase key s.entries)) e.size (omega arith) (rw split v.sum);
    }

delete_entry-IsValid : (key : String) (s : Store) → IsValid s → IsValid (delete_entry key s)
unfolding delete_entry
delete_entry-IsValid key s v = elim (Option-cases (lookup key s.entries)) [
  | inl e ↦ rw (e, delete_entry) v
  | inr (x, e) ↦ rw (e, delete_entry) (forget-IsValid key x s v e)
]

touch-IsValid : (now : ℕ) (key : String) (s : Store) → IsValid s → IsValid (touch now key s)
unfolding touch
touch-IsValid now key s v = elim (Option-cases (lookup key s.entries)) [
  | inl e ↦ rw (e, touch) v
  | inr (x, e) ↦
      let y = record x { accessed_at = now; hits = (x.hits + 1) % word } in
      let good : Fits key x = Entries-lookup Fits key x s.entries v.fits e in
      let same : sizes (insert key y s.entries) ≡ sizes s.entries =
        ground (arith, total-insert (λ (z : Entry). z.size) key y s.entries) in
      rw (e, touch)
        (record {
          distinct = insert-Distinct key y s.entries v.distinct;
          fits = Entries-insert Fits key y s.entries v.fits good;
          sum = rw same v.sum;
        })
]

commit-sum :
    (now : ℕ) (key : String) (size : ℕ) (s : Store)
    → IsValid s
    → (commit now key size s).total_size ≡ sizes (commit now key size s).entries % word
unfolding commit forget
commit-sum now key size s v =
    let y : Entry = record {
      key = key;
      size = size;
      created_at = now;
      accessed_at = now;
      hits = 0;
    } in
    elim (Option-cases (lookup key s.entries)) [
      | inl e ↦
          let more : sizes (insert key y s.entries) ≡ sizes s.entries + size =
            ground (arith, total-insert (λ (z : Entry). z.size) key y s.entries) in
          rw (e, commit) (rw more (credit s.total_size (sizes s.entries) size v.sum))
      | inr (x, e) ↦
          let w = forget-IsValid key x s v e in
          let more : sizes (insert key y s.entries) ≡ sizes (erase key s.entries) + size = ground (
            arith,
            total-insert (λ (z : Entry). z.size) key y s.entries,
            total-erase (λ (z : Entry). z.size) key s.entries v.distinct,
          ) in
          rw (e, commit)
            (rw more (
              credit ((s.total_size + (word - x.size)) % word) (sizes (erase key s.entries)) size
                w.sum))
    ]

pub commit-IsValid :
    (now : ℕ) (key : String) (size : ℕ) (s : Store)
    → size < word
    → IsValid s
    → IsValid (commit now key size s)
unfolding commit
commit-IsValid now key size s h v = record {
  distinct = insert-Distinct key _ s.entries v.distinct;
  fits = Entries-insert Fits key _ s.entries v.fits (refl, h);
  sum = commit-sum now key size s v;
}

-- The list that is left to evict is the table.
abbrev pub Agrees : List (String × Entry) → Store → Type 0
Agrees sorted s = Distinct sorted × ((k : String) → lookup k sorted ≡ lookup k s.entries)

pub Agrees-head :
    (k : String) (e : Entry) (sorted : List (String × Entry)) (s : Store)
    → Agrees ((k, e) ∷ sorted) s
    → lookup k s.entries ≡ some e
unfolding lookup
Agrees-head k e sorted s (d, same) = ground (arith, same k, eq_iff k k)

pub Agrees-forget :
    (k : String) (e : Entry) (sorted : List (String × Entry)) (s : Store)
    → Agrees ((k, e) ∷ sorted) s
    → Agrees sorted (forget k e s)
unfolding lookup forget
Agrees-forget k e sorted s ((new, d), same) =
    (d, λ j. ground (arith, same j, lookup-erase k j s.entries, eq_iff k j))

pub evict-IsValid :
    (limit : ℤ) (sorted : List (String × Entry)) (s : Store)
    → IsValid s
    → Agrees sorted s
    → IsValid (evict limit sorted s)
unfolding evict
evict-IsValid limit [] s v a = v
evict-IsValid limit ((k, e) ∷ sorted) s v a =
    if_both IsValid (leb_ℤ (int64 s.total_size) limit) _ _ v (
      evict-IsValid limit sorted (forget k e s)
        (forget-IsValid k e s v (Agrees-head k e sorted s a)) (Agrees-forget k e sorted s a))

pub sorted-Agrees : (s : Store) → IsValid s → Agrees (exchange_sort (length s.entries) s.entries) s
sorted-Agrees s v =
    let same : SameTable s.entries (exchange_sort (length s.entries) s.entries) =
      exchange_sort-SameTable (length s.entries) s.entries in
    same v.distinct

pub evict_if_needed-IsValid : (s : Store) → IsValid s → IsValid (evict_if_needed s)
unfolding evict_if_needed
evict_if_needed-IsValid s v =
    if_both IsValid (leb_ℤ (int64 s.total_size) (int64 s.max_size)) _ _ v (
      evict-IsValid (low_water s) (exchange_sort (length s.entries) s.entries) s v
        (sorted-Agrees s v))

-- The critical sections, in any order that goroutines can bring them into.
pub data Section : Type 0 where
  commits : ℕ → String → ℕ → Section
  deletes : String → Section
  touches : ℕ → String → Section
  evicts clears : Section

unfoldable pub enter : Section → Store → Store
enter (commits now key size) s = commit now key size s
enter (deletes key) s = delete_entry key s
enter (touches now key) s = touch now key s
enter evicts s = evict_if_needed s
enter clears s = clear s

unfoldable pub enter_all : List Section → Store → Store
enter_all [] s = s
enter_all (c ∷ cs) s = enter_all cs (enter c s)

-- A length that is committed is an int64.
abbrev pub IsExpected : Section → Type 0
IsExpected (commits now key size) = size < word
IsExpected _ = Unit

enter-IsValid : (c : Section) (s : Store) → IsExpected c → IsValid s → IsValid (enter c s)
unfolding enter clear total
enter-IsValid (commits now key size) s h v = commit-IsValid now key size s h v
enter-IsValid (deletes key) s h v = delete_entry-IsValid key s v
enter-IsValid (touches now key) s h v = touch-IsValid now key s v
enter-IsValid evicts s h v = evict_if_needed-IsValid s v
enter-IsValid clears s h v = record { distinct = tt; fits = tt; sum = refl }

pub enter_all-IsValid :
    (cs : List Section) (s : Store) → All IsExpected cs → IsValid s → IsValid (enter_all cs s)
unfolding enter_all
enter_all-IsValid [] s h v = v
enter_all-IsValid (c ∷ cs) s (h, hs) v = enter_all-IsValid cs (enter c s) hs (enter-IsValid c s h v)

-- A new cache without an index file keeps, after the critical sections of any calls in whatever order
-- they are interleaved: no key stands twice, each entry stands under its own key, and the total size is
-- the sum of the sizes of the entries, as an int64. (The sizes are int64 numbers.)
pub enter_all-new_store :
    (max_mb : ℕ) (ttl_hours : ℤ) (cs : List Section)
    → All IsExpected cs
    → (s : Store) × (new_store max_mb ttl_hours absent ≡ some s) × IsValid (enter_all cs s)
unfolding new_store load_index total
enter_all-new_store max_mb ttl_hours cs h =
    (_, refl, enter_all-IsValid cs _ h (record { distinct = tt; fits = tt; sum = refl }))
