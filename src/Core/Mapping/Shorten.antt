-- ===== src/Core/Mapping/Shorten.antt =====
-- Shortened identifiers of crates/core/src/mapping.rs: their length and where they are cut.
use etl_server_cloudberry.Prelude.{
  ℕ, zero, suc, ◌-◌, ◌*◌, ◌≤◌, min, ◌≡◌, refl, inl, inr, true, [], ◌∷◌, ◌++◌, Bytes, Text, text,
  length, length-append, leb, leb-eq_false, leb→le, ◌⊎◌, ℕ_discrete, Bool-cases, arith,
}
use etl_server_cloudberry.Core.Schema.{postgres_identifier_max_bytes}
use etl_server_cloudberry.Core.Mapping.{
  take, is_char_boundary, floor_boundary, hex, suffix_of, prefix_bytes, shorten_identifier,
}

length-hex : (bs : Bytes) → length (hex bs) ≡ 2 * length bs
unfolding hex
length-hex [] = refl
length-hex (b ∷ bs) = omega (arith, length-hex bs)

length-take : (n : ℕ) (s : Text) → length (take n s) ≡ min n (length s)
length-take zero s = omega arith
length-take (suc n) [] = omega arith
length-take (suc n) (c ∷ s) = omega (arith, length-take n s)

floor_boundary-le : (value : Text) (b : ℕ) → floor_boundary value b ≤ b
unfolding floor_boundary
floor_boundary-le value zero = omega arith
floor_boundary-le value (suc b) = ground (arith, floor_boundary-le value b)

-- The loop ends at the last boundary of a character at or before its start.
pub record IsFloor (value : Text) (start end : ℕ) : Type 0 where
  pub boundary : is_char_boundary value end ≡ true
  pub before : end ≤ start
  pub last : (c : ℕ) → is_char_boundary value c ≡ true → c ≤ start → c ≤ end

-- From any start, the loop that looks for the boundary of a character ends at one, the last one at or
-- before its start.
pub floor_boundary-IsFloor : (value : Text) (b : ℕ) → IsFloor value b (floor_boundary value b)
unfolding floor_boundary
floor_boundary-IsFloor value zero = record {
  boundary = unfold is_char_boundary in ground arith;
  before = omega arith;
  last = λ c h k. k;
}
floor_boundary-IsFloor value (suc b) = elim (Bool-cases (is_char_boundary value (suc b))) [
  | inl e ↦ rw e (record { boundary = e; before = omega arith; last = λ c h k. k })
  | inr e ↦
      let r = floor_boundary-IsFloor value b in
      rw e (record {
        boundary = r.boundary;
        before = let x = r.before in omega arith;
        last = λ c h k. elim (ℕ_discrete c (suc b)) [
          | yes same ↦ absurd (ground arith)
          | no other ↦ r.last c h (omega arith)
        ];
      })
]

module _ (sha256 : Bytes → Bytes) (digest : (v : Bytes) → length (sha256 v) ≡ 32) where
  length-suffix_of : (value : Text) → length (suffix_of sha256 value) ≡ 24
  unfolding suffix_of
  length-suffix_of value =
      omega
        (arith, length-hex (take 12 (sha256 value)), length-take 12 (sha256 value), digest value)

  length-cut :
      (value : Text) (k : ℕ)
      → k ≤ 38
      → length (take k value ++ (text "_" ++ suffix_of sha256 value)) ≤ 63
  unfolding text
  length-cut value k h = omega (
    arith,
    length-append (take k value) (text "_" ++ suffix_of sha256 value),
    length-take k value,
    length-suffix_of value,
  )

  -- An identifier of at most 63 bytes is left as it is. Of a longer one the result has at most 63 bytes:
  -- the bytes up to the last boundary of a character among the first 38, an underscore, and the
  -- first twelve bytes of its digest in hexadecimal.
  pub shorten_identifier-lem :
      (value : Text)
      → (length (shorten_identifier sha256 value) ≤ postgres_identifier_max_bytes)
        × (((length value ≤ postgres_identifier_max_bytes)
              × (shorten_identifier sha256 value ≡ value))
            ⊎ ((k : ℕ) × IsFloor value 38 k
                × (shorten_identifier sha256 value
                    ≡ take k value ++ (text "_" ++ hex (take 12 (sha256 value))))))
  unfolding shorten_identifier prefix_bytes
  shorten_identifier-lem value = elim (Bool-cases (leb (length value) 63)) [
    | inl e ↦ rw e (leb→le (length value) 63 e, inl (leb→le (length value) 63 e, refl))
    | inr e ↦
        let long = leb-eq_false (length value) 63 e in
        let start : min (62 - length (suffix_of sha256 value)) (length value) ≡ 38 =
          omega (arith, length-suffix_of value) in
        let k = floor_boundary value 38 in
        rw (e, start)
          (
            length-cut value k (floor_boundary-le value 38),
            inr (k, floor_boundary-IsFloor value 38, unfold suffix_of in refl),
          )
  ]
