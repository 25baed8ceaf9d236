-- ===== src/Core/Lsn.antt =====
-- crates/core/src/lsn.rs: the textual form of a position. A `PgLsn` is the number of its `u64`.
pub mod RoundTrip
use etl_server_cloudberry.Prelude.{
  ℕ, zero, suc, ◌+◌, ◌-◌, ◌*◌, ◌/◌, ◌%◌, Bool, true, false, ◌&&◌, ◌||◌, Option, none, some, List,
  [], ◌∷◌, ◌++◌, Text, length, is_empty, leb, ltb, ◌==◌, if◌then◌else◌, ok, err, Result, ok_or,
  ◌>>=◌,
}
use etl_server_cloudberry.Core.Schema.{CoreResult, invalid_lsn}
use etl_server_cloudberry.Core.Change.{PgLsn}

abbrev pub u32_mod : ℕ
u32_mod = 4_294_967_296

-- An upper-case hexadecimal digit.
unfoldable pub digit : ℕ → ℕ
digit d = if ltb d 10 then 48 + d else 55 + d

-- The last digits of a number, as many as are asked for.
unfoldable pub digits : ℕ → ℕ → Text
digits zero n = []
digits (suc k) n = digits k (n / 16) ++ digit (n % 16) ∷ []

-- Without the leading zeros, but with one digit at least.
unfoldable pub strip : Text → Text
strip [] = []
strip (c ∷ []) = c ∷ []
strip (c ∷ d ∷ s) = let rest = strip (d ∷ s) in if c == 48 then rest else c ∷ d ∷ s

-- `{:X}/{:08X}` of the two halves, which are `u32`.
unfoldable pub to_string : PgLsn → Text
to_string lsn = strip (digits 8 (lsn / u32_mod)) ++ 47 ∷ digits 8 (lsn % u32_mod)

-- `char::to_digit(16)`.
unfoldable pub to_digit : ℕ → Option ℕ
to_digit c =
    if leb 48 c && leb c 57
    then some (c - 48)
    else if leb 65 c && leb c 70
    then some (c - 55)
    else if leb 97 c && leb c 102
    then some (c - 87)
    else none

-- One more digit of a `u32`.
unfoldable pub shift_in : ℕ → Option ℕ → Option ℕ
shift_in acc none = none
shift_in acc (some d) = let n = acc * 16 + d in if ltb n u32_mod then some n else none

unfoldable pub parse_digits : Option ℕ → Text → Option ℕ
parse_digits none s = none
parse_digits (some acc) [] = some acc
parse_digits (some acc) (c ∷ s) = parse_digits (shift_in acc (to_digit c)) s

-- `u32::from_str_radix(value, 16)`, which takes a sign `+` in front of the digits.
unfoldable pub from_str_radix : Text → Option ℕ
from_str_radix [] = none
from_str_radix (c ∷ s) =
    if c == 43
    then if is_empty s then none else parse_digits (some 0) s
    else parse_digits (some 0) (c ∷ s)

-- `split_once('/')`.
unfoldable pub split_once : Text → Option (Text × Text)
split_once [] = none
split_once (c ∷ s) =
    let rest = split_once s in
    if c == 47 then some ([], s) else elim rest [ none ↦ none | some (a, b) ↦ some (c ∷ a, b) ]

unfoldable pub join_halves : Text → Option ℕ → Option ℕ → CoreResult PgLsn
join_halves value none low = err (invalid_lsn value)
join_halves value (some high) none = err (invalid_lsn value)
join_halves value (some high) (some low) = ok (high * u32_mod + low)

unfoldable pub parse_halves : Text → Option (Text × Text) → CoreResult PgLsn
parse_halves value none = err (invalid_lsn value)
parse_halves value (some (high, low)) =
    if is_empty high || (is_empty low || ltb 8 (length low))
    then err (invalid_lsn value)
    else join_halves value (from_str_radix high) (from_str_radix low)

unfoldable pub from_str : Text → CoreResult PgLsn
from_str value = parse_halves value (split_once value)
