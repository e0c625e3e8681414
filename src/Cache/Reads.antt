-- ===== src/Cache/Reads.antt =====
-- What `Get` and `Delete` of internal/cache/store.go do to the index.
use hybridgrid.Prelude.{
  ℕ, ◌+◌, ◌%◌, String, str_eq, eq_iff, ◌≡◌, refl, ◌↔◌, Bool, true, false, Option, none, some,
  if◌then◌else◌, arith, Bool-cases, subst, Option-cases, inl, inr,
}
use hybridgrid.Prelude.Int.{word}
use mathlib.Core.Option
use hybridgrid.Prelude.Maps.{lookup, lookup-erase, lookup-insert}
use hybridgrid.Cache.Store.{Entry, Store, forget, delete_entry, touch, expired, fetch, get}

pub lookup-delete_entry :
    (key j : String) (s : Store)
    → lookup j (delete_entry key s).entries ≡ (if str_eq key j then none else lookup j s.entries)
unfolding delete_entry forget
lookup-delete_entry key j s = elim (Option-cases (lookup key s.entries)) [
  | inl f ↦ rw (f, delete_entry) (ground (arith, eq_iff key j))
  | inr (e, f) ↦ rw (f, delete_entry) (lookup-erase key j s.entries)
]

-- An entry that is read once more.
abbrev pub used : ℕ → Entry → Entry
used now e = record e { accessed_at = now; hits = (e.hits + 1) % word }

pub lookup-touch :
    (now : ℕ) (key j : String) (s : Store)
    → lookup j (touch now key s).entries
      ≡ (if str_eq key j then Option.map (used now) (lookup key s.entries) else lookup j s.entries)
unfolding touch
lookup-touch now key j s = elim (Option-cases (lookup key s.entries)) [
  | inl f ↦ rw (f, touch) (ground (arith, eq_iff key j))
  | inr (e, f) ↦ rw (f, touch) (lookup-insert key j (used now e) s.entries)
]

fetch_lem :
    (now : ℕ) (key : String) (opens : Bool) (s : Store) (o : Option Entry)
    → lookup key s.entries ≡ o
    → let r = fetch now key opens s o in
      ((r.1 ≡ true) ↔ ((e : Entry) × (o ≡ some e) × (expired now s e ≡ false) × (opens ≡ true)))
      × ((j : String)
          → lookup j r.0.entries ≡ (
              if str_eq key j
              then (if r.1 then Option.map (used now) o else none)
              else lookup j s.entries))
unfolding fetch
fetch_lem now key opens s none f = ((λ e. cc, λ h. cc), λ j. ground (arith, eq_iff key j))
fetch_lem now key opens s (some e) f = elim (Bool-cases (expired now s e)) [
  | inl old ↦ rw old ((λ h. cc, λ (x, same, young, _). cc), λ j. lookup-delete_entry key j s)
  | inr fresh ↦ elim (Bool-cases opens) [
    | inl o ↦ rw fresh (
        rw o (
          (λ h. (e, refl, fresh, refl), λ h. refl),
          λ j.
              subst
                (λ p.
                  lookup j (touch now key s).entries
                  ≡ (if str_eq key j then Option.map (used now) p else lookup j s.entries))
                f (lookup-touch now key j s),
        ))
    | inr o ↦ rw fresh (rw o ((λ h. cc, λ h. cc), λ j. lookup-delete_entry key j s))
  ]
]

-- `Get` returns the file exactly when the key is in the index, has not expired and its file opens; the
-- entry then counts one more hit and was last used now. Otherwise the key is not in the index
-- afterwards. No other key is touched.
pub get_lem :
    (now : ℕ) (key : String) (opens : Bool) (s : Store)
    → let r = get now key opens s in
      ((r.1 ≡ true) ↔ (
        (e : Entry) × (lookup key s.entries ≡ some e) × (expired now s e ≡ false) × (opens ≡ true)))
      × ((j : String)
          → lookup j r.0.entries ≡ (
              if str_eq key j
              then (if r.1 then Option.map (used now) (lookup key s.entries) else none)
              else lookup j s.entries))
unfolding get
get_lem now key opens s = fetch_lem now key opens s (lookup key s.entries) refl
