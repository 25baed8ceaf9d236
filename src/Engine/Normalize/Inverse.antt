-- ===== src/Engine/Normalize/Inverse.antt =====
-- A map from keys to the places where they stand, as the inverse of what stands at each place.
use etl_server_cloudberry.Prelude.{
  ℕ, ◌≡◌, ◌≢◌, sym, ◌∙◌, subst, Option, none, some, arith, ℕ_discrete,
}
use etl_server_cloudberry.Prelude.Assoc.{
  Assoc, get, insert, remove, get-insert_self, get-insert_ne, get-remove_self, get-remove_ne,
}

module _ {K : Type 0} (dec : Discrete K) where
  -- A key is mapped to a place exactly when it stands there.
  pub record Inverse (f : ℕ → Option K) (m : Assoc K ℕ) : Type 0 where
    pub found : (k : K) (i : ℕ) → get dec k m ≡ some i → f i ≡ some k
    pub listed : (k : K) (i : ℕ) → f i ≡ some k → get dec k m ≡ some i

  -- `g` has `o` at `i`, and elsewhere what `f` has.
  pub record Updates (f g : ℕ → Option K) (i : ℕ) (o : Option K) : Type 0 where
    pub here : g i ≡ o
    pub there : (j : ℕ) → i ≢ j → g j ≡ f j

  pub put-Inverse :
      (f g : ℕ → Option K) (m : Assoc K ℕ) (k : K) (i : ℕ)
      → Inverse f m
      → Updates f g i (some k)
      → f i ≡ none
      → get dec k m ≡ none
      → Inverse g (insert dec k i m)
  put-Inverse f g m k i v u free new = record {
    found = λ j p e. elim (dec k j) [
      | yes same ↦
          let at : get dec j (insert dec k i m) ≡ some i =
            subst (λ x. get dec x (insert dec k i m) ≡ some i) same (get-insert_self dec k i m) in
          let e' : some i ≡ some p = sym at ∙ e in ground (arith, u.here)
      | no other ↦
          let e' = sym (get-insert_ne dec k j i m other) ∙ e in
          let old = v.found j p e' in u.there p (λ s. cc) ∙ old
    ];
    listed = λ j p e. elim (ℕ_discrete i p) [
      | yes same ↦
          let e' : some k ≡ some j = sym u.here ∙ subst (λ (x : ℕ). g x ≡ some j) (sym same) e in
          ground (arith, get-insert_self dec k i m)
      | no other ↦
          let old = v.listed j p (sym (u.there p other) ∙ e) in
          get-insert_ne dec k j i m (λ s. cc) ∙ old
    ];
  }

  pub drop-Inverse :
      (f g : ℕ → Option K) (m : Assoc K ℕ) (k : K) (i : ℕ)
      → Inverse f m
      → Updates f g i none
      → get dec k m ≡ some i
      → Inverse g (remove dec k m)
  drop-Inverse f g m k i v u at = record {
    found = λ j p e. elim (dec k j) [
      | yes same ↦
          let e' : none ≡ some p =
            sym (subst (λ x. get dec x (remove dec k m) ≡ none) same (get-remove_self dec k m))
            ∙ e in
          absurd (cc)
      | no other ↦
          let e' = sym (get-remove_ne dec k j m other) ∙ e in
          u.there p (λ s. other (let a = v.found k i at in let b = v.found j p e' in cc))
          ∙ v.found j p e'
    ];
    listed = λ j p e. elim (ℕ_discrete i p) [
      | yes same ↦
          let e' : none ≡ some j = sym u.here ∙ subst (λ (x : ℕ). g x ≡ some j) (sym same) e in
          absurd (cc)
      | no other ↦
          let old = v.listed j p (sym (u.there p other) ∙ e) in
          get-remove_ne dec k j m (λ s.
            other
              (let b : get dec k m ≡ some p = subst (λ x. get dec x m ≡ some p) (sym s) old in cc))
          ∙ old
    ];
  }

  pub same-Inverse :
      (f g : ℕ → Option K) (m : Assoc K ℕ) → Inverse f m → ((j : ℕ) → g j ≡ f j) → Inverse g m
  same-Inverse f g m v same = record {
    found = λ k i e. same i ∙ v.found k i e;
    listed = λ k i e. v.listed k i (sym (same i) ∙ e);
  }
