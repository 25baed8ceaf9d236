-- ===== src/Core/Mapping/Names.antt =====
-- Target names of crates/core/src/mapping.rs: when a table gets one, and which it is.
use etl_server_cloudberry.Prelude.{
  le→leb, ap₂, ℕ, zero, suc, ◌/◌, ◌%◌, ◌≤◌, ◌≡◌, refl, sym, ap, ◌∙◌, inl, inr, true, false, [], ◌∷◌,
  ◌++◌, Bytes, Text, text, length, all, is_empty, contains_nul, and_true, ok, bind_ok, then_ok,
  ok_inj, ◌==◌, arith,
}
use etl_server_cloudberry.Core.Schema.{QualifiedName, qualified_name, validate_identifier}
use etl_server_cloudberry.Core.Mapping.{
  TargetTableName, DefaultNameMapper, take, is_lowercase, is_prefix_character, is_prefix, hex_digit,
  hex, shorten_identifier, raw_schema, map_name,
}
use etl_server_cloudberry.Core.Mapping.Shorten.{shorten_identifier-lem}

validate_identifier-of :
    (v : Text)
    → is_empty v ≡ false
    → contains_nul v ≡ false
    → length v ≤ 63
    → validate_identifier v ≡ ok tt
unfolding validate_identifier
validate_identifier-of v e n l = ground arith

validate_identifier-nul : (v : Text) → validate_identifier v ≡ ok tt → contains_nul v ≡ false
unfolding validate_identifier
validate_identifier-nul v h = ground arith

contains_nul-append :
    (s t : Text) → contains_nul s ≡ false → contains_nul t ≡ false → contains_nul (s ++ t) ≡ false
contains_nul-append [] t h k = k
contains_nul-append (c ∷ s) t h k = ground (arith, contains_nul-append s t)

contains_nul-take : (n : ℕ) (s : Text) → contains_nul s ≡ false → contains_nul (take n s) ≡ false
contains_nul-take zero s h = refl
contains_nul-take (suc n) [] h = refl
contains_nul-take (suc n) (c ∷ s) h = ground (arith, contains_nul-take n s)

hex_digit-pos : (d : ℕ) → (hex_digit d == 0) ≡ false
unfolding hex_digit
hex_digit-pos d = ground arith

contains_nul-hex : (bs : Bytes) → contains_nul (hex bs) ≡ false
unfolding hex
contains_nul-hex [] = refl
contains_nul-hex (b ∷ bs) =
    rw (hex_digit-pos (b / 16), hex_digit-pos (b % 16)) (contains_nul-hex bs)

prefix_character-pos : (c : ℕ) → is_prefix_character c ≡ true → (c == 0) ≡ false
unfolding is_prefix_character is_lowercase
prefix_character-pos c h = ground arith

all-contains_nul : (s : Text) → all is_prefix_character s ≡ true → contains_nul s ≡ false
all-contains_nul [] h = refl
all-contains_nul (c ∷ s) h =
    let (x, y) = and_true (is_prefix_character c) _ h in
    rw (prefix_character-pos c x) (all-contains_nul s y)

prefix-contains_nul : (s : Text) → is_prefix s ≡ true → contains_nul s ≡ false
unfolding is_prefix is_lowercase
prefix-contains_nul [] h = refl
prefix-contains_nul (c ∷ s) h =
    let (x, y) = and_true (is_lowercase c) _ h in
    let (z, w) = and_true (all is_prefix_character s) _ y in ground (arith, all-contains_nul s z)

is_empty-append_cons : (s : Text) (c : ℕ) (t : Text) → is_empty (s ++ c ∷ t) ≡ false
is_empty-append_cons [] c t = refl
is_empty-append_cons (d ∷ s) c t = refl

append-cancel : (s : Text) {t u : Text} → s ++ t ≡ s ++ u → t ≡ u
append-cancel [] h = h
append-cancel (c ∷ s) h = append-cancel s (cc)

-- The target of a table, where there is one.
abbrev pub target : (Bytes → Bytes) → DefaultNameMapper → QualifiedName → TargetTableName
target sha256 m source = record {
  database = m.target_database;
  relation = record {
    schema = shorten_identifier sha256 (raw_schema m source);
    name = source.name;
  };
}

module _ (sha256 : Bytes → Bytes) (digest : (v : Bytes) → length (sha256 v) ≡ 32) where
  shorten-contains_nul :
      (v : Text) → contains_nul v ≡ false → contains_nul (shorten_identifier sha256 v) ≡ false
  unfolding text
  shorten-contains_nul v h = elim (shorten_identifier-lem sha256 digest v).1 [
    | inl (short, e) ↦ rw e h
    | inr (k, floor, e) ↦ rw e (
        contains_nul-append (take k v) _ (contains_nul-take k v h)
          (contains_nul-hex (take 12 (sha256 v))))
  ]

  shorten-is_empty :
      (v : Text) → is_empty v ≡ false → is_empty (shorten_identifier sha256 v) ≡ false
  unfolding text
  shorten-is_empty v h = elim (shorten_identifier-lem sha256 digest v).1 [
    | inl (short, e) ↦ rw e h
    | inr (k, floor, e) ↦ rw e (is_empty-append_cons (take k v) 95 (hex (take 12 (sha256 v))))
  ]

  raw_schema-contains_nul :
      (m : DefaultNameMapper) (source : QualifiedName)
      → is_prefix m.source_prefix.value ≡ true
      → contains_nul m.source_database ≡ false
      → contains_nul source.schema ≡ false
      → contains_nul (raw_schema m source) ≡ false
  unfolding text
  raw_schema-contains_nul m source p d s =
      contains_nul-append m.source_prefix.value _ (prefix-contains_nul m.source_prefix.value p)
        (contains_nul-append m.source_database _ d s)

  raw_schema-is_empty :
      (m : DefaultNameMapper) (source : QualifiedName) → is_empty (raw_schema m source) ≡ false
  unfolding text
  raw_schema-is_empty m source = is_empty-append_cons m.source_prefix.value 95 _

  -- With a valid prefix and valid database names, every table with a valid name gets a target: in the
  -- target database, under its own name, in the schema of the prefix, the source database and the
  -- table's schema, joined by two underscores and shortened. However long these are, it is not refused.
  pub map_name-total :
      (m : DefaultNameMapper) (source : QualifiedName)
      → is_prefix m.source_prefix.value ≡ true
      → validate_identifier m.source_database ≡ ok tt
      → validate_identifier m.target_database ≡ ok tt
      → validate_identifier source.schema ≡ ok tt
      → validate_identifier source.name ≡ ok tt
      → map_name sha256 m source ≡ ok (target sha256 m source)
  unfolding map_name qualified_name
  map_name-total m source p d t s n =
      let raw = raw_schema m source in
      let clean =
        raw_schema-contains_nul m source p (validate_identifier-nul m.source_database d)
          (validate_identifier-nul source.schema s) in
      let shorten =
        validate_identifier-of (shorten_identifier sha256 raw)
          (shorten-is_empty raw (raw_schema-is_empty m source)) (shorten-contains_nul raw clean)
          (shorten_identifier-lem sha256 digest raw).0 in
      rw (d, t, shorten, n) refl

  map_name-target :
      (m : DefaultNameMapper) (source : QualifiedName) (t : TargetTableName)
      → map_name sha256 m source ≡ ok t
      → t ≡ target sha256 m source
  unfolding map_name qualified_name
  map_name-target m source t h =
      let (a, h1) = then_ok (validate_identifier m.source_database) h in
      let (b, h2) = then_ok (validate_identifier m.target_database) h1 in
      let (relation, c, h3) =
        bind_ok (qualified_name (shorten_identifier sha256 (raw_schema m source)) source.name) h2 in
      let (d, k1) =
        then_ok (validate_identifier (shorten_identifier sha256 (raw_schema m source))) c in
      let (e, k2) = then_ok (validate_identifier source.name) k1 in
      sym (ok_inj h3)
      ∙ ap (λ r. record { database = m.target_database; relation = r }) (sym (ok_inj k2))

  shorten-short : (v : Text) → length v ≤ 63 → shorten_identifier sha256 v ≡ v
  unfolding shorten_identifier
  shorten-short v h = rw (le→leb (length v) 63 h) refl

  -- Two tables whose schemas need no shortening have different targets, unless they are the same.
  pub map_name-injective :
      (m : DefaultNameMapper) (a b : QualifiedName) (t : TargetTableName)
      → length (raw_schema m a) ≤ 63
      → length (raw_schema m b) ≤ 63
      → map_name sha256 m a ≡ ok t
      → map_name sha256 m b ≡ ok t
      → a ≡ b
  unfolding text
  map_name-injective m a b t la lb ha hb =
      let same : target sha256 m a ≡ target sha256 m b =
        sym (map_name-target m a t ha) ∙ map_name-target m b t hb in
      let raws : raw_schema m a ≡ raw_schema m b =
        sym (shorten-short _ la) ∙ (ap (λ x. x.relation.schema) same ∙ shorten-short _ lb) in
      let names : a.name ≡ b.name = ap (λ x. x.relation.name) same in
      let schemas : a.schema ≡ b.schema = append-cancel (text "__") (
        append-cancel m.source_database
          (append-cancel (text "__") (append-cancel m.source_prefix.value raws))) in
      ap₂ (λ s n. record { schema = s; name = n }) schemas names
