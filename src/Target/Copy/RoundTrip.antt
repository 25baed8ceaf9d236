-- ===== src/Target/Copy/RoundTrip.antt =====
-- A reader of the text format of COPY, as PostgreSQL documents it, against the encoder of
-- crates/target-cloudberry/src/copy.rs.
use mathlib.Core.List.{append_assoc}
use etl_server_cloudberry.Prelude.{
  is_empty, length-append, ap₂, length, suc, ℕ, zero, suc, ◌<◌, ◌+◌, ◌*◌, ◌-◌, ◌≡◌, refl, Bool,
  true, ◌||◌, Option, none, some, List, [], ◌∷◌, ◌++◌, Bytes, ◌==◌, if◌then◌else◌, ok, arith,
  bind_ok, ok_inj, ap, ◌∙◌,
}
use etl_server_cloudberry.Core.Change.{Cell, null, unchanged_toast, text_cell, binary}
use etl_server_cloudberry.Target.Copy.{
  escape, encode_text_bytes, encode_field, encode_rest, encode_row,
}

-- A tabulator or a newline ends a field.
abbrev is_end : ℕ → Bool
is_end c = c == 9 || c == 10

-- The byte that a backslash and a letter stand for.
abbrev unescape : ℕ → ℕ
unescape c =
    if c == 116
    then 9
    else if c == 110
    then 10
    else if c == 114
    then 13
    else if c == 98
    then 8
    else if c == 102
    then 12
    else if c == 118
    then 11
    else c

abbrev prepend : ℕ → Option (Bytes × Bytes) → Option (Bytes × Bytes)
prepend c none = none
prepend c (some (value, rest)) = some (c ∷ value, rest)

-- Inside a field: behind a backslash, and behind the first or second of three octal digits.
data Mode : Type 0 where
  plain escaped : Mode
  two_digits last_digit : ℕ → Mode

-- A text field, and what follows it from its terminator on.
read : Mode → Bytes → Option (Bytes × Bytes)
read mode [] = none
read plain (c ∷ s) =
    let after = read escaped s in
    let more = read plain s in
    if c == 92 then after else if is_end c then some ([], c ∷ s) else prepend c more
read escaped (c ∷ s) =
    let digits = read (two_digits 0) s in
    let more = read plain s in if c == 48 then digits else prepend (unescape c) more
read (two_digits n) (c ∷ s) = read (last_digit (n * 8 + (c - 48))) s
read (last_digit n) (c ∷ s) = prepend (n * 8 + (c - 48)) (read plain s)

read-escape : (b : ℕ) (s : Bytes) → read plain (escape b ++ s) ≡ prepend b (read plain s)
unfolding read escape
read-escape b s = ground arith

read-encode_text_bytes :
    (value : Bytes) (t : ℕ) (s : Bytes)
    → is_end t ≡ true
    → read plain (encode_text_bytes value ++ t ∷ s) ≡ some (value, t ∷ s)
unfolding encode_text_bytes
read-encode_text_bytes [] t s h = unfold read in ground arith
read-encode_text_bytes (b ∷ value) t s h =
    rw
      (
        append_assoc (escape b) (encode_text_bytes value) (t ∷ s),
        read-escape b (encode_text_bytes value ++ t ∷ s),
        read-encode_text_bytes value t s h,
      )
      refl

-- The marker of a null value stands alone in its field.
read_null : Bytes → Option Bytes
read_null [] = none
read_null (a ∷ s) = if a == 92 then mark s else none
  where
    end : Bytes → Option Bytes
    end [] = none
    end (t ∷ s) = if is_end t then some (t ∷ s) else none

    mark : Bytes → Option Bytes
    mark [] = none
    mark (b ∷ s) = if b == 78 then end s else none

field_of : Option Bytes → Option (Bytes × Bytes) → Option (Cell × Bytes)
field_of (some rest) text = some (null, rest)
field_of none none = none
field_of none (some (value, rest)) = some (text_cell value, rest)

read_field : Bytes → Option (Cell × Bytes)
read_field s = field_of (read_null s) (read plain s)

read_null-escape : (b : ℕ) (s : Bytes) → read_null (escape b ++ s) ≡ none
unfolding read_null escape
read_null-escape b s = ground arith

read_null-text :
    (value : Bytes) (t : ℕ) (s : Bytes)
    → is_end t ≡ true
    → read_null (encode_text_bytes value ++ t ∷ s) ≡ none
unfolding encode_text_bytes
read_null-text [] t s h = unfold read_null in ground arith
read_null-text (b ∷ value) t s h =
    rw (append_assoc (escape b) (encode_text_bytes value) (t ∷ s)) (read_null-escape b _)

read_field-encode_field :
    (cell : Cell) (field : Bytes) (t : ℕ) (s : Bytes)
    → encode_field cell ≡ ok field
    → is_end t ≡ true
    → read_field (field ++ t ∷ s) ≡ some (cell, t ∷ s)
unfolding encode_field read_field
read_field-encode_field null field t s e h =
    rw (← ok_inj e) (unfold read_null field_of in ground arith)
read_field-encode_field unchanged_toast field t s e h = absurd (cc)
read_field-encode_field (binary value) field t s e h = absurd (cc)
read_field-encode_field (text_cell value) field t s e h = rw (← ok_inj e) (
    ap₂ field_of (read_null-text value t s h) (read-encode_text_bytes value t s h)
    ∙ (unfold field_of in refl))

abbrev cons_cell : Cell → Option (List Cell) → Option (List Cell)
cons_cell cell none = none
cons_cell cell (some cells) = some (cell ∷ cells)

-- A field that was read, and the fields behind it.
after_field : (Bytes → Option (List Cell)) → Option (Cell × Bytes) → Option (List Cell)
after_field more none = none
after_field more (some (cell, [])) = none
after_field more (some (cell, t ∷ rest)) =
    if t == 9 then cons_cell cell (more rest) else if is_empty rest then some (cell ∷ []) else none

-- The cells of a row of at most as many fields as the fuel says.
pub read_cells : ℕ → Bytes → Option (List Cell)
read_cells zero s = none
read_cells (suc fuel) s = after_field (read_cells fuel) (read_field s)

read_cells-last :
    (fuel : ℕ) (cell : Cell) (s : Bytes)
    → read_field s ≡ some (cell, 10 ∷ [])
    → read_cells (suc fuel) s ≡ some (cell ∷ [])
unfolding read_cells after_field
read_cells-last fuel cell s e = rw e refl

read_cells-more :
    (fuel : ℕ) (cell : Cell) (s rest : Bytes)
    → read_field s ≡ some (cell, 9 ∷ rest)
    → read_cells (suc fuel) s ≡ cons_cell cell (read_cells fuel rest)
unfolding read_cells after_field
read_cells-more fuel cell s rest e = rw e refl

read_cells-encode :
    (cells : List Cell) (cell : Cell) (field rest : Bytes) (fuel : ℕ)
    → encode_field cell ≡ ok field
    → encode_rest cells ≡ ok rest
    → length cells < fuel
    → read_cells fuel (field ++ rest) ≡ some (cell ∷ cells)
unfolding encode_rest
read_cells-encode cells cell field rest zero e f l = absurd (omega arith)
read_cells-encode [] cell field rest (suc fuel) e f l =
    rw (← ok_inj f) (
      read_cells-last fuel cell (field ++ 10 ∷ [])
        (read_field-encode_field cell field 10 [] e refl))
read_cells-encode (c ∷ cs) cell field rest (suc fuel) e f l =
    let (field', e', f') = bind_ok (encode_field c) f in
    let (rest', g, h) = bind_ok (encode_rest cs) f' in
    rw (← ok_inj h) (
      read_cells-more fuel cell (field ++ 9 ∷ (field' ++ rest')) (field' ++ rest')
        (read_field-encode_field cell field 9 (field' ++ rest') e refl)
      ∙ ap (cons_cell cell) (read_cells-encode cs c field' rest' fuel e' g (omega arith)))

length-encode_rest :
    (cells : List Cell) (rest : Bytes) → encode_rest cells ≡ ok rest → length cells < length rest
unfolding encode_rest
length-encode_rest [] rest f = rw (← ok_inj f) (omega arith)
length-encode_rest (c ∷ cs) rest f =
    let (field, e, f') = bind_ok (encode_field c) f in
    let (rest', g, h) = bind_ok (encode_rest cs) f' in
    rw (← ok_inj h) (omega (arith, length-append field rest', length-encode_rest cs rest' g))

-- The reader of a row; its length in bytes is fuel enough.
pub read_row : Bytes → Option (List Cell)
read_row s = read_cells (length s) s

-- A row that the encoder accepts is the one that a reader of the format gets back: null values and
-- texts, whatever bytes these contain.
pub read_row-encode_row :
    (cells : List Cell) (s : Bytes) → encode_row cells ≡ ok s → read_row s ≡ some cells
unfolding encode_row read_row
read_row-encode_row [] s h = absurd (cc)
read_row-encode_row (cell ∷ cells) s h =
    let (field, e, h1) = bind_ok (encode_field cell) h in
    let (rest, f, h2) = bind_ok (encode_rest cells) h1 in
    rw (← ok_inj h2) (
      read_cells-encode cells cell field rest (length (field ++ rest)) e f
        (omega (arith, length-append field rest, length-encode_rest cells rest f)))
