-- ===== src/Core/Mapping.antt =====
-- crates/core/src/mapping.rs: the names of target tables. SHA-256 is a parameter.
pub mod Shorten
pub mod Names
use etl_server_cloudberry.Prelude.{
  ℕ, zero, suc, ◌+◌, ◌-◌, ◌/◌, ◌%◌, min, Bool, true, false, not, ◌&&◌, ◌||◌, Option, none, some,
  List, [], ◌∷◌, ◌++◌, Bytes, Text, text, length, get_elem?, all, leb, ltb, ◌==◌, if◌then◌else◌, ok,
  err, ◌>>◌, ◌>>=◌,
}
use etl_server_cloudberry.Core.Schema.{
  CoreResult, invalid_prefix, QualifiedName, qualified_name, validate_identifier,
  postgres_identifier_max_bytes,
}

abbrev hash_suffix_bytes : ℕ
hash_suffix_bytes = 12

pub record SourcePrefix : Type 0 where
  pub value : Text

unfoldable pub is_lowercase : ℕ → Bool
is_lowercase c = leb 97 c && leb c 122

unfoldable pub is_prefix_character : ℕ → Bool
is_prefix_character c = is_lowercase c || (leb 48 c && leb c 57 || c == 95)

unfoldable pub is_prefix : Text → Bool
is_prefix [] = false
is_prefix (c ∷ s) = is_lowercase c && (all is_prefix_character s && leb (length (c ∷ s)) 24)

-- `SourcePrefix::new`, which deserialisation goes through as well. A character that is not ASCII has
-- only bytes that the tests refuse.
unfoldable pub source_prefix : Text → CoreResult SourcePrefix
source_prefix value =
    if is_prefix value then ok (record { value = value }) else err (invalid_prefix value)

pub record TargetTableName : Type 0 where
  pub database : Text
  pub relation : QualifiedName

pub record DefaultNameMapper : Type 0 where
  pub target_database : Text
  pub source_prefix : SourcePrefix
  pub source_database : Text

abbrev pub take : ℕ → List ℕ → List ℕ
take zero s = []
take (suc n) [] = []
take (suc n) (c ∷ s) = c ∷ take n s

-- A byte that continues a character.
unfoldable pub is_continuation : ℕ → Bool
is_continuation c = leb 128 c && ltb c 192

unfoldable pub starts_character : Option ℕ → Bool
starts_character none = false
starts_character (some c) = not (is_continuation c)

-- `str::is_char_boundary`.
unfoldable pub is_char_boundary : Text → ℕ → Bool
is_char_boundary value index =
    index == 0 || (index == length value || starts_character (get_elem? value index))

-- The `while` of `shorten_identifier`; the index 0 is a boundary.
unfoldable pub floor_boundary : Text → ℕ → ℕ
floor_boundary value zero = zero
floor_boundary value (suc boundary) =
    let rest = floor_boundary value boundary in
    if is_char_boundary value (suc boundary) then suc boundary else rest

unfoldable pub hex_digit : ℕ → ℕ
hex_digit d = if ltb d 10 then 48 + d else 87 + d

-- `{byte:02x}` of each byte.
unfoldable pub hex : Bytes → Text
hex [] = []
hex (b ∷ bs) = hex_digit (b / 16) ∷ hex_digit (b % 16) ∷ hex bs

abbrev pub raw_schema : DefaultNameMapper → QualifiedName → Text
raw_schema m source =
    m.source_prefix.value ++ (text "__" ++ (m.source_database ++ (text "__" ++ source.schema)))

module _ (sha256 : Bytes → Bytes) where
  unfoldable pub suffix_of : Text → Text
  suffix_of value = hex (take hash_suffix_bytes (sha256 value))

  unfoldable pub prefix_bytes : Text → ℕ
  prefix_bytes value = postgres_identifier_max_bytes - 1 - length (suffix_of value)

  unfoldable pub shorten_identifier : Text → Text
  shorten_identifier value =
      if leb (length value) postgres_identifier_max_bytes
      then value
      else take (floor_boundary value (min (prefix_bytes value) (length value))) value
        ++ (text "_" ++ suffix_of value)

  unfoldable pub map_name : DefaultNameMapper → QualifiedName → CoreResult TargetTableName
  map_name m source = do
    validate_identifier m.source_database
    validate_identifier m.target_database
    relation ← qualified_name (shorten_identifier (raw_schema m source)) source.name
    ok (record { database = m.target_database; relation = relation })
