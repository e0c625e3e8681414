-- ===== src/Cache/Store.antt =====
-- `Store` of internal/cache/store.go: the index of the files, its size, and the eviction. An int64 is
-- held as the number of its 64 bits. A method that takes the mutex more than once is split into one
-- function per critical section, and the method is their composition. What the file system and the
-- index file answer is an argument; log lines and cache metrics are left out.
use hybridgrid.Prelude.{
  ℕ, zero, suc, ◌+◌, ◌-◌, ◌*◌, ◌%◌, String, Bool, true, false, not, Option, none, some, List, [],
  ◌∷◌, if◌then◌else◌, length, ltb,
}
use hybridgrid.Prelude.Int.{word, ℤ, pos, half64, signed, wrap64, ◌*ℤ◌, sub_ℕ, ltb_ℤ, leb_ℤ, quot_ℤ}
use hybridgrid.Cache.Naming.{validate_cache_key}
use hybridgrid.Prelude.Maps.{lookup, insert, erase, values, total}

abbrev pub int64 : ℕ → ℤ
int64 bits = signed half64 bits

pub record Entry : Type 0 where
  pub key : String
  pub size : ℕ
  pub created_at : ℕ
  pub accessed_at : ℕ
  pub hits : ℕ

pub record Store : Type 0 where
  pub max_size : ℕ
  pub ttl : ℤ
  pub entries : List (String × Entry)
  pub total_size : ℕ

-- What the file system and `json.Unmarshal` make of the index file: not there, an error of either, or a
-- list of pointers to entries, where a `null` of the file is no entry.
pub data IndexFile : Type 0 where
  absent broken : IndexFile
  index_of : List (Option Entry) → IndexFile

-- The loop of `loadIndex`. A `null` is a nil pointer, whose use panics: there is then no store.
unfoldable pub load_entries : List (Option Entry) → Store → Option Store
load_entries [] s = some s
load_entries (none ∷ es) s = none
load_entries (some e ∷ es) s =
    load_entries es
      (record s { entries = insert e.key e s.entries; total_size = (s.total_size + e.size) % word })

unfoldable pub load_index : IndexFile → Store → Option Store
unfolding load_entries
load_index absent s = some s
load_index broken s = some (record s { entries = [] })
load_index (index_of es) s = load_entries es s

-- `NewStore`, when the directory can be made.
unfoldable pub new_store : ℕ → ℤ → IndexFile → Option Store
unfolding load_index
new_store max_size_mb ttl_hours index = load_index index (record {
  max_size = max_size_mb * 1048576 % word;
  ttl = wrap64 (ttl_hours *ℤ pos 3600000000000);
  entries = [];
  total_size = 0;
})

-- `saveIndex`: the entries that it hands to `json.MarshalIndent`, none of which is nil.
unfoldable pub save_index : Store → List Entry
save_index s = values s.entries

-- The part of `Put` and `PutBytes` under the lock.
unfoldable pub commit : ℕ → String → ℕ → Store → Store
commit now key size s =
    let left : ℕ = elim (lookup key s.entries) [
      | none ↦ s.total_size
      | some old ↦ (s.total_size + (word - old.size)) % word
    ] in
    record s {
      entries =
          insert key
            (record { key = key; size = size; created_at = now; accessed_at = now; hits = 0 })
            s.entries;
      total_size = (left + size) % word;
    }

-- An entry leaves the index, and its size the total.
unfoldable pub forget : String → Entry → Store → Store
forget key e s = record s {
  entries = erase key s.entries;
  total_size = (s.total_size + (word - e.size)) % word;
}

-- The part of `Delete` under the lock.
unfoldable pub delete_entry : String → Store → Store
unfolding forget
delete_entry key s = elim (lookup key s.entries) [ none ↦ s | some e ↦ forget key e s ]

-- The last part of `Get`.
unfoldable pub touch : ℕ → String → Store → Store
touch now key s = elim (lookup key s.entries) [
  | none ↦ s
  | some e ↦ record s {
    entries = insert key (record e { accessed_at = now; hits = (e.hits + 1) % word }) s.entries;
  }
]

unfoldable pub clear : Store → Store
clear s = record s { entries = []; total_size = 0 }

-- `sorted[i].entry.AccessedAt.After(sorted[j].entry.AccessedAt)`
abbrev pub after : (String × Entry) → (String × Entry) → Bool
after x y = ltb y.1.accessed_at x.1.accessed_at

-- The inner loop of the sort: what stands at `i` in the end, and the places behind it.
unfoldable pub sweep :
    String × Entry → List (String × Entry) → (String × Entry) × List (String × Entry)
sweep x [] = (x, [])
sweep x (y ∷ ys) =
    let (least, rest) = sweep (if after x y then y else x) ys in
    (least, (if after x y then x else y) ∷ rest)

-- The outer loop; its number of rounds is the length of the list.
unfoldable pub exchange_sort : ℕ → List (String × Entry) → List (String × Entry)
unfolding sweep
exchange_sort zero xs = xs
exchange_sort (suc n) [] = []
exchange_sort (suc n) (x ∷ xs) = let (least, rest) = sweep x xs in least ∷ exchange_sort n rest

-- The loop that evicts, from the entry that was not used for the longest time.
unfoldable pub evict : ℤ → List (String × Entry) → Store → Store
unfolding forget
evict limit [] s = s
evict limit ((k, e) ∷ sorted) s =
    let rest = evict limit sorted (forget k e s) in
    if leb_ℤ (int64 s.total_size) limit then s else rest

-- `s.maxSize*8/10`
unfoldable pub low_water : Store → ℤ
low_water s = quot_ℤ (int64 (s.max_size * 8 % word)) 10

unfoldable pub evict_if_needed : Store → Store
unfolding low_water evict exchange_sort
evict_if_needed s =
    if leb_ℤ (int64 s.total_size) (int64 s.max_size)
    then s
    else evict (low_water s) (exchange_sort (length s.entries) s.entries) s

unfoldable pub expired : ℕ → Store → Entry → Bool
expired now s e = ltb_ℤ s.ttl (sub_ℕ now e.created_at)

-- `Get` after the entry was looked up.
unfoldable pub fetch : ℕ → String → Bool → Store → Option Entry → Store × Bool
fetch now key opens s none = (s, false)
fetch now key opens s (some e) =
    if expired now s e
    then (delete_entry key s, false)
    else if opens
    then (touch now key s, true)
    else (delete_entry key s, false)

-- `Get`, with the answer of `os.Open`: the new index, and whether the file is returned.
unfoldable pub get : ℕ → String → Bool → Store → Store × Bool
unfolding fetch
get now key opens s = fetch now key opens s (lookup key s.entries)

pub data StoreError : Type 0 where
  invalid_key no_directory no_temp_file not_written not_renamed index_not_saved : StoreError

-- The answers to one `Put`: what each call of the file system returned (the copy returns a length), and
-- whether the index was saved.
pub record PutAnswers : Type 0 where
  pub made_directory : Bool
  pub created : Bool
  pub copied : Option ℕ
  pub renamed : Bool
  pub saved : Bool

-- `Put` up to the rename: the length of the file, or the error.
pub data Written : Type 0 where
  wrote : ℕ → Written
  failed : StoreError → Written

unfoldable pub write_file : Bool → String → PutAnswers → Written
write_file on_windows key a =
    if not (validate_cache_key on_windows key)
    then failed invalid_key
    else if not a.made_directory
    then failed no_directory
    else if not a.created
    then failed no_temp_file
    else elim a.copied [
      | none ↦ failed not_written
      | some size ↦ if a.renamed then wrote size else failed not_renamed
    ]

unfoldable pub saving : Bool → Option StoreError
saving true = none
saving false = some index_not_saved

-- The rest of `Put`: the new index and the error.
unfoldable pub settle : ℕ → String → Bool → Store → Written → Store × Option StoreError
unfolding commit evict_if_needed saving
settle now key saved s (failed e) = (s, some e)
settle now key saved s (wrote size) = (evict_if_needed (commit now key size s), saving saved)

unfoldable pub put : ℕ → Bool → String → PutAnswers → Store → Store × Option StoreError
unfolding write_file settle
put now on_windows key a s = settle now key a.saved s (write_file on_windows key a)

-- `PutBytes`, with the length of the data and the answers of the file system.
unfoldable pub write_bytes : Bool → String → ℕ → (made_directory written : Bool) → Written
write_bytes on_windows key size made_directory written =
    if not (validate_cache_key on_windows key)
    then failed invalid_key
    else if not made_directory
    then failed no_directory
    else if not written
    then failed not_written
    else wrote size

unfoldable pub put_bytes :
    ℕ
    → Bool
    → String
    → ℕ
    → (made_directory written saved : Bool) → Store
    → Store × Option StoreError
unfolding write_bytes settle
put_bytes now on_windows key size made_directory written saved s =
    settle now key saved s (write_bytes on_windows key size made_directory written)

pub record Stats : Type 0 where
  pub entries : ℕ
  pub total_size : ℕ
  pub max_size : ℕ
  pub total_hits : ℕ

unfoldable pub stats : Store → Stats
stats s = record {
  entries = length s.entries;
  total_size = s.total_size;
  max_size = s.max_size;
  total_hits = total (λ e. e.hits) s.entries % word;
}
