-- ===== src/Core/Lsn/RoundTrip.antt =====
-- Printing and parsing of positions (crates/core/src/lsn.rs), digit by digit.
use etl_server_cloudberry.Prelude.{
  ℕ, zero, suc, ◌*◌, ◌/◌, ◌%◌, ◌≤◌, ◌<◌, ◌≡◌, refl, sym, ap, ◌∙◌, true, false, Option, none, some,
  [], ◌∷◌, ◌++◌, Text, length, length-append, is_empty, ltb, ◌==◌, All, All-append, ok, arith,
  Bool-cases, inl, inr,
}
use etl_server_cloudberry.Core.Lsn.{
  u32_mod, digit, digits, strip, to_string, to_digit, shift_in, parse_digits, from_str_radix,
  split_once, join_halves, parse_halves, from_str,
}
use etl_server_cloudberry.Core.Change.{PgLsn}

to_digit-digit : (d : ℕ) → d < 16 → to_digit (digit d) ≡ some d
unfolding to_digit digit
to_digit-digit d h = ground arith

digit-le : (d : ℕ) → 48 ≤ digit d
unfolding digit
digit-le d = ground arith

abbrev IsDigits : Text → Type 0
IsDigits = All (λ c. 48 ≤ c)

digits-IsDigits : (k n : ℕ) → IsDigits (digits k n)
unfolding digits
digits-IsDigits zero n = tt
digits-IsDigits (suc k) n =
    All-append (λ c. 48 ≤ c) (digits k (n / 16)) (digit (n % 16) ∷ []) (digits-IsDigits k (n / 16))
      (digit-le (n % 16), tt)

length-digits : (k n : ℕ) → length (digits k n) ≡ k
unfolding digits
length-digits zero n = refl
length-digits (suc k) n =
    omega (arith, length-append (digits k (n / 16)) (digit (n % 16) ∷ []), length-digits k (n / 16))

parse_digits-append :
    (o : Option ℕ) (s : Text) (c : ℕ) {n : ℕ}
    → parse_digits o s ≡ some n
    → parse_digits o (s ++ c ∷ []) ≡ parse_digits (shift_in n (to_digit c)) []
unfolding parse_digits
parse_digits-append none s c h = absurd (cc)
parse_digits-append (some a) [] c {n} h =
    ap (λ x. parse_digits (shift_in x (to_digit c)) []) (ground arith)
parse_digits-append (some a) (d ∷ s) c h = parse_digits-append (shift_in a (to_digit d)) s c h

parse_digits-nil : (o : Option ℕ) → parse_digits o [] ≡ o
unfolding parse_digits
parse_digits-nil none = refl
parse_digits-nil (some n) = refl

abbrev power : ℕ → ℕ
power zero = 1
power (suc k) = power k * 16

parse_digits-digits :
    (k n : ℕ) → n < power k → n < u32_mod → parse_digits (some 0) (digits k n) ≡ some n
unfolding digits
parse_digits-digits zero n h b = unfold parse_digits in ground arith
parse_digits-digits (suc k) n h b =
    let ih = parse_digits-digits k (n / 16) (omega arith) (omega arith) in
    parse_digits-append (some 0) (digits k (n / 16)) (digit (n % 16)) ih
    ∙ parse_digits-nil _
    ∙ rw (to_digit-digit (n % 16) (omega arith)) (unfold shift_in in ground arith)

zero_first :
    (c : ℕ) (s : Text) → (c == 48) ≡ true → parse_digits (some 0) (c ∷ s) ≡ parse_digits (some 0) s
unfolding parse_digits
zero_first c s h =
    let e : shift_in 0 (to_digit c) ≡ some 0 = unfold shift_in to_digit in ground arith in
    ap (λ o. parse_digits o s) e

parse_digits-strip : (s : Text) → parse_digits (some 0) (strip s) ≡ parse_digits (some 0) s
unfolding strip
parse_digits-strip [] = refl
parse_digits-strip (c ∷ []) = refl
parse_digits-strip (c ∷ d ∷ s) = elim (Bool-cases (c == 48)) [
  | inr e ↦ rw e refl
  | inl e ↦ rw e (parse_digits-strip (d ∷ s) ∙ sym (zero_first c (d ∷ s) e))
]

strip-IsDigits : (s : Text) → IsDigits s → IsDigits (strip s)
unfolding strip
strip-IsDigits [] h = h
strip-IsDigits (c ∷ []) h = h
strip-IsDigits (c ∷ d ∷ s) h = elim (Bool-cases (c == 48)) [
  | inr e ↦ rw e h
  | inl e ↦ rw e (strip-IsDigits (d ∷ s) h.1)
]

strip-nonempty : (c : ℕ) (s : Text) → is_empty (strip (c ∷ s)) ≡ false
unfolding strip
strip-nonempty c [] = refl
strip-nonempty c (d ∷ s) = elim (Bool-cases (c == 48)) [
  | inr e ↦ rw e refl
  | inl e ↦ rw e (strip-nonempty d s)
]

-- Digits are not read as a sign.
from_str_radix-digits :
    (s : Text) {n : ℕ}
    → IsDigits s
    → is_empty s ≡ false
    → parse_digits (some 0) s ≡ some n
    → from_str_radix s ≡ some n
unfolding from_str_radix
from_str_radix-digits [] h e p = absurd (cc)
from_str_radix-digits (c ∷ s) (le, h) e p =
    let unsigned : (c == 43) ≡ false = ground arith in rw unsigned p

split_once-digits : (a b : Text) → IsDigits a → split_once (a ++ 47 ∷ b) ≡ some (a, b)
unfolding split_once
split_once-digits [] b h = refl
split_once-digits (c ∷ a) b (le, h) =
    let other : (c == 47) ≡ false = ground arith in rw (other, split_once-digits a b h) refl

nonempty : (s : Text) (k : ℕ) → length s ≡ suc k → is_empty s ≡ false
nonempty [] k h = absurd (omega arith)
nonempty (c ∷ s) k h = refl

strip_nonempty : (s : Text) → is_empty s ≡ false → is_empty (strip s) ≡ false
strip_nonempty [] h = absurd (cc)
strip_nonempty (c ∷ s) h = strip-nonempty c s

from_str_radix-half :
    (n : ℕ)
    → n < u32_mod
    → (from_str_radix (digits 8 n) ≡ some n) × (from_str_radix (strip (digits 8 n)) ≡ some n)
from_str_radix-half n h =
    let parsed = parse_digits-digits 8 n h h in
    let full = nonempty (digits 8 n) 7 (length-digits 8 n) in
    (
      from_str_radix-digits (digits 8 n) (digits-IsDigits 8 n) full parsed,
      from_str_radix-digits (strip (digits 8 n)) (strip-IsDigits (digits 8 n) (digits-IsDigits 8 n))
          (strip_nonempty (digits 8 n) full) (parse_digits-strip (digits 8 n) ∙ parsed),
    )

-- Every position of 64 bits is the one that its printed form is parsed to.
pub from_str-to_string :
    (lsn : PgLsn) → lsn < 18_446_744_073_709_551_616 → from_str (to_string lsn) ≡ ok lsn
unfolding from_str to_string parse_halves
from_str-to_string lsn h =
    let high = lsn / u32_mod in
    let low = lsn % u32_mod in
    let a = strip (digits 8 high) in
    let b = digits 8 low in
    let split = split_once-digits a b (strip-IsDigits (digits 8 high) (digits-IsDigits 8 high)) in
    let full = nonempty (digits 8 high) 7 (length-digits 8 high) in
    let some_high = strip_nonempty (digits 8 high) full in
    let some_low = nonempty b 7 (length-digits 8 low) in
    let fits : ltb 8 (length b) ≡ false = rw (length-digits 8 low) refl in
    let p = from_str_radix-half high (omega arith) in
    let q = from_str_radix-half low (omega arith) in
    rw (split, some_high, some_low, fits, p.1, q.0) (unfold join_halves in ap ok (omega arith))
