-- ===== src/Tests/CacheRuns.antt =====
-- Runs of the cache index.
use hybridgrid.Prelude.{
  ℕ, ◌*◌, ◌/◌, ◌≤◌, ◌<◌, String, str_eq, ◌≡◌, refl, ◌⊎◌, ◌↔◌, Bool, true, false, none, some, [],
  ◌∷◌, if◌then◌else◌, arith,
}
use mathlib.Core.Option
use hybridgrid.Prelude.Int.{word, pos, leb_ℤ, quot_ℤ}
use hybridgrid.Prelude.Maps.{lookup, total, erase}
use hybridgrid.Cache.Store.{
  int64, Entry, Store, StoreError, absent, new_store, commit, expired, get, put, PutAnswers,
  evict_if_needed, evict, exchange_sort, sweep, forget, low_water,
}
use hybridgrid.Cache.Accounting.{
  commits, deletes, touches, evicts, clears, enter_all, IsValid, enter_all-new_store,
}
use hybridgrid.Cache.Eviction.{evict_if_needed-oldest, evict_if_needed-bound}
use hybridgrid.Cache.Writes.{Refused, Placed, put_lem}
use hybridgrid.Cache.Reads.{used, get_lem}

abbrev object : String → ℕ → ℕ → Entry
object key size at = record { key = key; size = size; created_at = at; accessed_at = at; hits = 0 }

-- 100 bytes at most, and 150 in use.
abbrev crowded : Store
crowded = record {
  max_size = 100;
  ttl = pos 1000;
  entries =
      ("new", object "new" 30 9) ∷ ("old", object "old" 70 2) ∷ ("mid", object "mid" 50 5) ∷ [];
  total_size = 150;
}

crowded-IsValid : IsValid crowded
unfolding lookup total
crowded-IsValid = record { distinct = ground arith; fits = ground arith; sum = refl }

enter_all-new_store_example :
    (s : Store) × (new_store 1 (pos 24) absent ≡ some s)
    × IsValid (
        enter_all
          (commits 1 "a" 300
            ∷ touches 2 "a"
            ∷ commits 3 "b" 20
            ∷ evicts
            ∷ deletes "a"
            ∷ clears
            ∷ [])
          s)
enter_all-new_store_example =
    enter_all-new_store 1 (pos 24)
      (commits 1 "a" 300 ∷ touches 2 "a" ∷ commits 3 "b" 20 ∷ evicts ∷ deletes "a" ∷ clears ∷ [])
      (omega arith, (tt, (omega arith, (tt, (tt, (tt, tt))))))

old_goes : lookup "old" (evict_if_needed crowded).entries ≡ none
unfolding evict_if_needed evict exchange_sort sweep lookup erase forget low_water quot_ℤ
old_goes = refl

mid_stays : lookup "mid" (evict_if_needed crowded).entries ≡ some (object "mid" 50 5)
unfolding evict_if_needed evict exchange_sort sweep lookup erase forget low_water quot_ℤ
mid_stays = refl

evict_if_needed-oldest_example : (2 ≤ 5) × (lookup "mid" crowded.entries ≡ some (object "mid" 50 5))
unfolding lookup
evict_if_needed-oldest_example =
    evict_if_needed-oldest crowded "old" "mid" (object "old" 70 2) (object "mid" 50 5)
      crowded-IsValid refl old_goes mid_stays

evict_if_needed-bound_example :
    let t = evict_if_needed crowded in
    (leb_ℤ (int64 t.total_size) (int64 100) ≡ true)
    × ((t ≡ crowded) ⊎ (leb_ℤ (int64 t.total_size) (pos (100 * 8 / 10)) ≡ true))
evict_if_needed-bound_example = evict_if_needed-bound crowded crowded-IsValid (omega arith)

abbrev all_well : PutAnswers
all_well = record {
  made_directory = true;
  created = true;
  copied = some 40;
  renamed = true;
  saved = true;
}

copied_size : (n : ℕ) → all_well.copied ≡ some n → n < word
copied_size n h = ground arith

put_lem_example :
    let r = put 20 true "abc" all_well crowded in
    IsValid r.0
    × (((x : StoreError) × (r ≡ (crowded, some x)) × Refused true "abc" all_well x)
        ⊎ ((n : ℕ) × Placed true "abc" all_well n
            × (r ≡ (evict_if_needed (commit 20 "abc" n crowded), none))
            × (leb_ℤ (int64 r.0.total_size) (int64 100) ≡ true)))
put_lem_example = put_lem 20 true "abc" all_well crowded crowded-IsValid (omega arith) copied_size

get_lem_example :
    let r = get 20 "mid" true crowded in
    ((r.1 ≡ true) ↔ (
      (e : Entry) × (lookup "mid" crowded.entries ≡ some e)
      × (expired 20 crowded e ≡ false)
      × (◌≡◌ {A = Bool} true true)))
    × ((j : String)
        → lookup j r.0.entries ≡ (
            if str_eq "mid" j
            then (if r.1 then Option.map (used 20) (lookup "mid" crowded.entries) else none)
            else lookup j crowded.entries))
get_lem_example = get_lem 20 "mid" true crowded
