-- ===== src/Target/Copy.antt =====
-- crates/target-cloudberry/src/copy.rs: rows in the text format of COPY.
pub mod RoundTrip
use etl_server_cloudberry.Prelude.{
  ℕ, List, [], ◌∷◌, ◌++◌, Bytes, ◌==◌, if◌then◌else◌, Result, ok, err, ◌>>=◌,
}
use etl_server_cloudberry.Core.Change.{Cell, null, unchanged_toast, text_cell, binary}

pub data CopyEncodeError : Type 0 where
  empty_row unchanged_toast_value binary_value : CopyEncodeError

abbrev pub CopyResult : Type 0 → Type 0
CopyResult A = Result CopyEncodeError A

-- One byte of `encode_text_bytes`.
unfoldable pub escape : ℕ → Bytes
escape byte =
    if byte == 92
    then 92 ∷ 92 ∷ []
    else if byte == 9
    then 92 ∷ 116 ∷ []
    else if byte == 10
    then 92 ∷ 110 ∷ []
    else if byte == 13
    then 92 ∷ 114 ∷ []
    else if byte == 8
    then 92 ∷ 98 ∷ []
    else if byte == 12
    then 92 ∷ 102 ∷ []
    else if byte == 11
    then 92 ∷ 118 ∷ []
    else if byte == 0
    then 92 ∷ 48 ∷ 48 ∷ 48 ∷ []
    else byte ∷ []

unfoldable pub encode_text_bytes : Bytes → Bytes
encode_text_bytes [] = []
encode_text_bytes (byte ∷ value) = escape byte ++ encode_text_bytes value

unfoldable pub encode_field : Cell → CopyResult Bytes
encode_field null = ok (92 ∷ 78 ∷ [])
encode_field unchanged_toast = err unchanged_toast_value
encode_field (binary value) = err binary_value
encode_field (text_cell value) = ok (encode_text_bytes value)

-- The fields behind the first one, each with its tabulator, and the final newline.
unfoldable pub encode_rest : List Cell → CopyResult Bytes
encode_rest [] = ok (10 ∷ [])
encode_rest (cell ∷ cells) =
    let rest = encode_rest cells in
    do field ← encode_field cell; fields ← rest; ok (9 ∷ (field ++ fields))

unfoldable pub encode_row : List Cell → CopyResult Bytes
encode_row [] = err empty_row
encode_row (cell ∷ cells) = do
  field ← encode_field cell
  fields ← encode_rest cells
  ok (field ++ fields)
