-- ===== src/Source/Ddl.antt =====
-- crates/source-postgres/src/ddl.rs: the DDL messages that the source's event triggers write into
-- the log. The JSON parser of an envelope is a parameter.
use etl_server_cloudberry.Prelude.{
  ℕ, ◌+◌, ◌-◌, ◌*◌, ◌&&◌, ◌||◌, Option, none, some, List, [], ◌∷◌, Text, Bytes, text, length, any,
  is_empty, contains_nul, leb, ltb, ◌==◌, if◌then◌else◌, is_yes, Bytes-discrete, leb_text,
  starts_with, sort_by, ok, err, ok_or, ◌>>=◌, ◌>>◌, traverse,
}
use etl_server_cloudberry.Core.Change.{DdlMessage}
use etl_server_cloudberry.Source.Wal.{
  SourceResult, unknown_ddl_prefix, unsupported_ddl_version, invalid_relation_oid, empty_ddl,
  invalid_affected_schema, invalid_schema,
}

abbrev pub ddl_message_prefix : Text
ddl_message_prefix = text "pg2cloudberry_ddl_v1"

abbrev ddl_message_version : ℕ
ddl_message_version = 1

-- What `decode_ddl_message` tells apart of a `serde_json::Value`; a number is its printed form.
pub data Value : Type 0 where
  string : Text → Value
  number : Text → Value
  other : Text → Value

pub record DdlEnvelope : Type 0 where
  pub version : ℕ
  pub command_tag : Text
  pub relation_ids : List Value
  pub affected_schemas : List Text
  pub schema_fingerprint : Text

-- One more decimal digit of a `u32`.
unfoldable pub shift_in : ℕ → ℕ → Option ℕ
shift_in acc c =
    let n = acc * 10 + (c - 48) in
    if leb 48 c && (leb c 57 && ltb n 4_294_967_296) then some n else none

unfoldable pub parse_digits : Option ℕ → Text → Option ℕ
parse_digits none s = none
parse_digits (some acc) [] = some acc
parse_digits (some acc) (c ∷ s) = parse_digits (shift_in acc c) s

-- `text.parse::<u32>()`, which takes a sign `+` in front of the digits.
unfoldable pub parse_u32 : Text → Option ℕ
parse_u32 [] = none
parse_u32 (c ∷ s) =
    if c == 43
    then if is_empty s then none else parse_digits (some 0) s
    else parse_digits (some 0) (c ∷ s)

unfoldable pub relation_oid : Value → SourceResult ℕ
relation_oid (string value) = ok_or (invalid_relation_oid value) (parse_u32 value)
relation_oid (number value) = ok_or (invalid_relation_oid value) (parse_u32 value)
relation_oid (other value) = err (invalid_relation_oid value)

-- `dedup`: of equal neighbours the first one stays.
unfoldable pub dedup_after : Text → List Text → List Text
dedup_after t [] = []
dedup_after t (s ∷ ss) =
    let skipped = dedup_after t ss in
    let kept = dedup_after s ss in if is_yes (Bytes-discrete t s) then skipped else s ∷ kept

unfoldable pub dedup : List Text → List Text
dedup [] = []
dedup (s ∷ ss) = s ∷ dedup_after s ss

unfoldable pub canonicalize_schemas : List Text → SourceResult (List Text)
canonicalize_schemas schemas =
    if any (λ s. is_empty s || contains_nul s) schemas
    then err invalid_affected_schema
    else ok (dedup (sort_by leb_text schemas))

unfoldable pub check_envelope : DdlEnvelope → SourceResult DdlMessage
check_envelope e = do
  if e.version == ddl_message_version then ok tt else err (unsupported_ddl_version e.version)
  relation_ids ← traverse relation_oid e.relation_ids
  if is_empty e.command_tag || is_empty e.schema_fingerprint then err empty_ddl else ok tt
  affected_schemas ← canonicalize_schemas e.affected_schemas
  ok (record {
    version = e.version;
    command_tag = e.command_tag;
    relation_ids = relation_ids;
    affected_schemas = affected_schemas;
    schema_fingerprint = e.schema_fingerprint;
  })

unfoldable pub decode_ddl_message :
    (Bytes → SourceResult DdlEnvelope) → Text → Bytes → SourceResult DdlMessage
decode_ddl_message from_slice prefix payload =
    if is_yes (Bytes-discrete prefix ddl_message_prefix)
    then from_slice payload >>= check_envelope
    else err (unknown_ddl_prefix prefix)

unfoldable pub validate_schema : Text → SourceResult (Unit {0})
validate_schema value =
    if is_empty value
      || (contains_nul value
          || (ltb 63 (length value)
              || (is_yes (Bytes-discrete value (text "pg_catalog"))
                  || (is_yes (Bytes-discrete value (text "information_schema"))
                      || (starts_with (text "pg_toast") value
                          || starts_with (text "pg_temp") value)))))
    then err (invalid_schema value)
    else ok tt
