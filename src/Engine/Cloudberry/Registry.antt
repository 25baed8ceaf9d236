-- ===== src/Engine/Cloudberry/Registry.antt =====
-- The table bindings of crates/engine/src/adapters/cloudberry.rs.
use etl_server_cloudberry.Prelude.{
  subst, ◌||◌, ◌≡◌, ◌≢◌, refl, sym, ◌∙◌, Bool, true, false, some, List, [], ◌∷◌, All, All-map,
  is_yes, is_yes-of, bind_ok, ok_inj, ok, arith, Bytes-discrete,
}
use etl_server_cloudberry.Prelude.Assoc.{get, insert, get-insert_self, get-insert_ne}
use etl_server_cloudberry.Engine.Cloudberry.{
  TableBinding, TableKey-discrete, QualifiedName-discrete, key, TableBindingRegistry, Collected,
  has_target, contains, is_bound, collect, collect_all, new_registry,
}

-- Two bindings that can stand in one registry.
abbrev pub IsApart : TableBinding → TableBinding → Type 0
IsApart a b =
    (key a ≢ key b)
    × (a.plan.table.target ≢ b.plan.table.target)
    × (a.plan.staging_name ≢ b.plan.staging_name)

abbrev pub AllApart : List TableBinding → Type 0
AllApart [] = Unit {0}
AllApart (b ∷ bs) = All (IsApart b) bs × AllApart bs

-- The names of a binding are among those collected.
abbrev IsHeld : Collected → TableBinding → Type 0
IsHeld c b =
    (get TableKey-discrete (key b) c.by_key ≡ some b)
    × (has_target c.targets b.plan.table.target ≡ true)
    × (contains c.staging_names b.plan.staging_name ≡ true)

-- A binding that was collected, and what has been collected since.
record IsCollected (c d : Collected) (b : TableBinding) : Type 0 where
  new_key : is_bound c.by_key (key b) ≡ false
  new_target : has_target c.targets b.plan.table.target ≡ false
  new_name : contains c.staging_names b.plan.staging_name ≡ false
  left : d ≡ record {
    by_key = insert TableKey-discrete (key b) b c.by_key;
    targets = b.plan.table.target ∷ c.targets;
    staging_names = b.plan.staging_name ∷ c.staging_names;
  }

collect-IsCollected : (c d : Collected) (b : TableBinding) → collect c b ≡ ok d → IsCollected c d b
unfolding collect
collect-IsCollected c d b h = ground arith

-- A held binding is apart from one that is collected now, and stays held.
IsHeld-IsApart :
    (c d : Collected) (a b : TableBinding) → IsCollected c d b → IsHeld c a → IsApart a b
unfolding is_bound
IsHeld-IsApart c d a b n h = (
  λ e.
      let g = subst (λ k. get TableKey-discrete k c.by_key ≡ some a) e h.0 in
      let k = n.new_key in absurd (ground arith),
  λ e.
      let g = subst (λ t. has_target c.targets t ≡ true) e h.1 in
      let k = n.new_target in absurd (cc),
  λ e.
      let g = subst (λ t. contains c.staging_names t ≡ true) e h.2 in
      let k = n.new_name in absurd (cc),
)

or_right : (b : Bool) {c : Bool} → c ≡ true → (b || c) ≡ true
or_right true h = refl
or_right false h = h

IsHeld-collect :
    (c d : Collected) (a b : TableBinding) → IsCollected c d b → IsHeld c a → IsHeld d a
unfolding has_target contains
IsHeld-collect c d a b n h =
    let apart = IsHeld-IsApart c d a b n h in
    rw n.left (
      get-insert_ne TableKey-discrete (key b) (key a) b c.by_key (λ e. apart.0 (sym e)) ∙ h.0,
      or_right (is_yes (QualifiedName-discrete b.plan.table.target a.plan.table.target)) h.1,
      or_right (is_yes (Bytes-discrete b.plan.staging_name a.plan.staging_name)) h.2,
    )

or_left : (b c : Bool) → b ≡ true → (b || c) ≡ true
or_left true c h = refl
or_left false c h = absurd (cc)

collected-IsHeld : (c d : Collected) (b : TableBinding) → IsCollected c d b → IsHeld d b
unfolding has_target contains
collected-IsHeld c d b n = rw n.left (
  get-insert_self TableKey-discrete (key b) b c.by_key,
  or_left _ _ (is_yes-of (QualifiedName-discrete b.plan.table.target b.plan.table.target) refl),
  or_left _ _ (is_yes-of (Bytes-discrete b.plan.staging_name b.plan.staging_name) refl),
)

-- The bindings of a list that were collected one after the other.
record AreCollected (c d : Collected) (bs : List TableBinding) : Type 0 where
  kept : (a : TableBinding) → IsHeld c a → IsHeld d a × All (IsApart a) bs
  held : All (IsHeld d) bs
  apart : AllApart bs

collect_all-AreCollected :
    (bs : List TableBinding) (c d : Collected) → collect_all c bs ≡ ok d → AreCollected c d bs
unfolding collect_all
collect_all-AreCollected [] c d h = record {
  kept = λ a held. (subst (λ x. IsHeld x a) (ok_inj h) held, tt);
  held = tt;
  apart = tt;
}
collect_all-AreCollected (b ∷ bs) c d h =
    let (e, h1, h2) = bind_ok (collect c b) h in
    let n = collect-IsCollected c e b h1 in
    let r = collect_all-AreCollected bs e d h2 in
    let new = r.kept b (collected-IsHeld c e b n) in
    record {
      kept = λ a held.
          let later = r.kept a (IsHeld-collect c e a b n held) in
          (later.0, (IsHeld-IsApart c e a b n held, later.1));
      held = (new.0, r.held);
      apart = (new.1, r.apart);
    }

-- A registry that is accepted finds every one of its bindings at its relation and generation, and no
-- two of them have the same relation and generation, the same target table or the same staging name.
pub new_registry-finds :
    (bindings : List TableBinding) (registry : TableBindingRegistry)
    → new_registry bindings ≡ ok registry
    → All (λ b. get TableKey-discrete (key b) registry ≡ some b) bindings × AllApart bindings
unfolding new_registry
new_registry-finds bindings registry h =
    let (d, h1, h2) =
      bind_ok (collect_all (record { by_key = []; targets = []; staging_names = [] }) bindings) h in
    let r = collect_all-AreCollected bindings _ d h1 in
    (
      All-map (λ b held. subst (λ m. get TableKey-discrete (key b) m ≡ some b) (ok_inj h2) held.0)
          bindings r.held,
      r.apart,
    )
