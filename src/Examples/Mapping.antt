-- ===== src/Examples/Mapping.antt =====
-- Instances of the theorems on crates/core/src/mapping.rs.
use etl_server_cloudberry.Prelude.{
  ◌≡◌, refl, ok, Bytes, Text, text, replicate, length, arith, ◌⊎◌, ◌++◌, ◌∷◌, ◌≤◌, ℕ,
}
use etl_server_cloudberry.Core.Schema.{QualifiedName, validate_identifier}
use etl_server_cloudberry.Core.Mapping.{
  DefaultNameMapper, map_name, is_prefix, is_lowercase, is_prefix_character, shorten_identifier,
  take, hex,
}
use etl_server_cloudberry.Core.Mapping.Shorten.{IsFloor, shorten_identifier-lem}
use etl_server_cloudberry.Core.Mapping.Names.{target, map_name-total, map_name-injective}

abbrev constant_digest : Bytes → Bytes
constant_digest v = replicate 32 171

abbrev mapper : DefaultNameMapper
mapper = record {
  target_database = text "warehouse";
  source_prefix = record { value = text "shop1" };
  source_database = text "orders";
}

abbrev lines : QualifiedName
lines = record { schema = text "public"; name = text "lines" }

-- 70 bytes: 37 letters, then characters of two bytes.
abbrev long_name : Text
long_name = replicate 37 97 ++ (195 ∷ 169 ∷ replicate 31 98)

shorten_identifier-lem_example :
    (length (shorten_identifier constant_digest long_name) ≤ 63)
    × (((length long_name ≤ 63) × (shorten_identifier constant_digest long_name ≡ long_name))
        ⊎ ((k : ℕ) × IsFloor long_name 38 k
            × (shorten_identifier constant_digest long_name
                ≡ take k long_name ++ (text "_" ++ hex (take 12 (constant_digest long_name))))))
shorten_identifier-lem_example = shorten_identifier-lem constant_digest (λ v. refl) long_name

map_name-total_example :
    map_name constant_digest mapper lines ≡ ok (target constant_digest mapper lines)
unfolding is_prefix is_lowercase is_prefix_character validate_identifier text
map_name-total_example =
    map_name-total constant_digest (λ v. refl) mapper lines refl refl refl refl refl

map_name-injective_example : lines ≡ lines
unfolding text
map_name-injective_example =
    map_name-injective constant_digest (λ v. refl) mapper lines lines
      (target constant_digest mapper lines) (omega arith) (omega arith) map_name-total_example
      map_name-total_example
