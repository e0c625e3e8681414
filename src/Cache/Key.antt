-- ===== src/Cache/Key.antt =====
-- internal/cache/key.go: what is hashed into the key of a compilation. A Go string is its bytes. The hash
-- function of github.com/cespare/xxhash is a parameter: a function of all bytes that were written.
use hybridgrid.Prelude.{
  ℕ, ◌+◌, ◌/◌, ◌%◌, Bool, true, false, ◌&&◌, ◌||◌, Option, none, some, List, [], ◌∷◌, ◌++◌,
  if◌then◌else◌, ltb, ◌==◌,
}

abbrev pub Bytes : Type 0
Bytes = List ℕ

-- The order of strings that `sort.Strings` uses.
unfoldable pub leb_bytes : Bytes → Bytes → Bool
leb_bytes [] t = true
leb_bytes (c ∷ s) [] = false
leb_bytes (c ∷ s) (d ∷ t) = ltb c d || ((c == d) && leb_bytes s t)

unfoldable pub place : Bytes → List Bytes → List Bytes
place s [] = s ∷ []
place s (t ∷ ts) = let rest = place s ts in if leb_bytes s t then s ∷ t ∷ ts else t ∷ rest

-- `sort.Strings`
unfoldable pub sort_strings : List Bytes → List Bytes
sort_strings [] = []
sort_strings (s ∷ ss) = place s (sort_strings ss)

-- The bytes that were written to the hasher.
pub record KeyBuilder : Type 0 where
  pub written : Bytes

unfoldable pub new_key_builder : KeyBuilder
new_key_builder = record { written = [] }

unfoldable pub add_bytes : Bytes → KeyBuilder → KeyBuilder
add_bytes b k = record { written = k.written ++ b }

unfoldable pub add_string : Bytes → KeyBuilder → KeyBuilder
unfolding add_bytes
add_string s k = add_bytes (0 ∷ []) (add_bytes s k)

unfoldable pub add_strings : List Bytes → KeyBuilder → KeyBuilder
add_strings [] k = k
add_strings (s ∷ ss) k = add_strings ss (add_string s k)

unfoldable pub add_sorted_strings : List Bytes → KeyBuilder → KeyBuilder
add_sorted_strings ss k = add_strings (sort_strings ss) k

-- `AddFile`, with the contents of the file if it can be read.
unfoldable pub add_file : Option Bytes → KeyBuilder → Option KeyBuilder
unfolding add_bytes
add_file none k = none
add_file (some contents) k = some (add_bytes contents k)

unfoldable pub hex_digit : ℕ → ℕ
hex_digit n = if ltb n 10 then n + 48 else n + 87

unfoldable pub hex_byte : ℕ → Bytes
unfolding hex_digit
hex_byte b = hex_digit (b / 16) ∷ hex_digit (b % 16) ∷ []

-- `sum >> shift`, as a byte
unfoldable pub byte_at : ℕ → ℕ → ℕ
byte_at shift sum = sum / shift % 256

unfoldable pub encode_sum : ℕ → Bytes
unfolding hex_byte byte_at
encode_sum sum =
    hex_byte (byte_at 72057594037927936 sum)
    ++ (hex_byte (byte_at 281474976710656 sum)
        ++ (hex_byte (byte_at 1099511627776 sum)
            ++ (hex_byte (byte_at 4294967296 sum)
                ++ (hex_byte (byte_at 16777216 sum)
                    ++ (hex_byte (byte_at 65536 sum)
                        ++ (hex_byte (byte_at 256 sum) ++ hex_byte (byte_at 1 sum)))))))

pub record CompilationKey : Type 0 where
  pub compiler : Bytes
  pub compiler_ver : Bytes
  pub target_arch : Bytes
  pub flags : List Bytes
  pub defines : List Bytes
  pub source_hash : Bytes

-- `Build`, up to the sum.
unfoldable pub key_builder : CompilationKey → KeyBuilder
unfolding new_key_builder add_string add_sorted_strings
key_builder c = add_string c.source_hash (
    add_sorted_strings c.defines (
      add_sorted_strings c.flags (
        add_string c.target_arch
          (add_string c.compiler_ver (add_string c.compiler new_key_builder)))))

module _ (sum64 : Bytes → ℕ) where
  unfoldable pub sum : KeyBuilder → Bytes
  unfolding encode_sum
  sum k = encode_sum (sum64 k.written)

  unfoldable pub build : CompilationKey → Bytes
  unfolding key_builder sum
  build c = sum (key_builder c)

  unfoldable pub hash_file : Option Bytes → Option Bytes
  unfolding new_key_builder add_file sum
  hash_file contents = elim (add_file contents new_key_builder) [
    | none ↦ none
    | some k ↦ some (sum k)
  ]

  unfoldable pub hash_bytes : Bytes → Bytes
  unfolding new_key_builder add_bytes sum
  hash_bytes b = sum (add_bytes b new_key_builder)

  unfoldable pub hash_string : Bytes → Bytes
  unfolding new_key_builder add_string sum
  hash_string s = sum (add_string s new_key_builder)

  unfoldable pub hash_strings : List Bytes → Bytes
  unfolding new_key_builder add_strings sum
  hash_strings ss = sum (add_strings ss new_key_builder)
