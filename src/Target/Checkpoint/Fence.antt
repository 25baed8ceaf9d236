-- ===== src/Target/Checkpoint/Fence.antt =====
-- Fences and their lock (crates/target-cloudberry/src/checkpoint.rs).
use etl_server_cloudberry.Prelude.{
  ℕ, ℤ, pos, ◌≤◌, ◌≡◌, ◌≢◌, refl, subst, inl, inr, true, Option-cases, ite, if_neg, Option, none,
  some, ltb_ℤ, ◌≤ℤ◌, ◌<ℤ◌, ok, arith, ℕ_discrete,
}
use etl_server_cloudberry.Prelude.Assoc.{get, get-insert, get-insert_self}
use etl_server_cloudberry.Target.Checkpoint.{
  PipelineFence, TargetMeta, validate_fence, may_activate, set_fence, activate_pipeline_fence,
  is_current_fence, check_fence, lock_pipeline_fence,
}

-- A row of the fence table is not ahead of the generation and the token.
abbrev pub Reaches : Option (ℕ × ℤ) → ℕ × ℤ → Type 0
Reaches none new = Unit {0}
Reaches (some (generation, token)) new = (generation ≤ new.0) × (token ≤ℤ new.1)

-- What a successful activation has done.
pub record IsActivated (m m' : TargetMeta) (f : PipelineFence) : Type 0 where
  pub in_force :
      get ℕ_discrete f.pipeline_id m'.fences ≡ some (f.topology_generation, f.fencing_token)
  pub forward :
      Reaches (get ℕ_discrete f.pipeline_id m.fences) (f.topology_generation, f.fencing_token)
  pub positive : ltb_ℤ (pos 0) f.fencing_token ≡ true
  pub fences :
      (p : ℕ)
      → get ℕ_discrete p m'.fences
        ≡ ite
            (ℕ_discrete f.pipeline_id p)
            (some (f.topology_generation, f.fencing_token))
            (get ℕ_discrete p m.fences)
  pub checkpoints : m'.checkpoints ≡ m.checkpoints

activate-inversion :
    (m : TargetMeta) (f : PipelineFence) {m' : TargetMeta}
    → activate_pipeline_fence m f ≡ ok m'
    → (validate_fence f ≡ ok tt)
      × (may_activate f (get ℕ_discrete f.pipeline_id m.fences) ≡ true)
      × (m' ≡ set_fence m f)
unfolding activate_pipeline_fence
activate-inversion m f h = ground arith

validate_fence-positive :
    (f : PipelineFence) → validate_fence f ≡ ok tt → ltb_ℤ (pos 0) f.fencing_token ≡ true
unfolding validate_fence
validate_fence-positive f h = ground arith

may_activate-Reaches :
    (f : PipelineFence) (row : Option (ℕ × ℤ))
    → may_activate f row ≡ true
    → Reaches row (f.topology_generation, f.fencing_token)
unfolding may_activate
may_activate-Reaches f none h = tt
may_activate-Reaches f (some (g, t)) h = ground arith

-- An activation that succeeds puts the fence in force, never lowers the generation or the token,
-- and leaves the other pipelines and all checkpoints alone.
pub activate-IsActivated :
    (m : TargetMeta) (f : PipelineFence) {m' : TargetMeta}
    → activate_pipeline_fence m f ≡ ok m'
    → IsActivated m m' f
unfolding set_fence
activate-IsActivated m f h =
    let (valid, may, e) = activate-inversion m f h in
    rw e (record {
      in_force = get-insert_self ℕ_discrete f.pipeline_id _ m.fences;
      forward = may_activate-Reaches f (get ℕ_discrete f.pipeline_id m.fences) may;
      positive = validate_fence-positive f valid;
      fences = λ p.
          get-insert ℕ_discrete f.pipeline_id p (f.topology_generation, f.fencing_token) m.fences;
      checkpoints = refl;
    })

pub lock-inversion :
    (m : TargetMeta) (f : PipelineFence)
    → lock_pipeline_fence m f ≡ ok tt
    → get ℕ_discrete f.pipeline_id m.fences ≡ some (f.topology_generation, f.fencing_token)
unfolding lock_pipeline_fence check_fence is_current_fence
lock-inversion m f h = elim (Option-cases (get ℕ_discrete f.pipeline_id m.fences)) [
  | inl e ↦ absurd (ground arith)
  | inr ((g, t), e) ↦ ground arith
]

-- Some activation of the pipeline had a higher token than `f`.
abbrev pub IsPast : Option (ℕ × ℤ) → PipelineFence → Type 0
IsPast none f = ⊥
IsPast (some (generation, token)) f = f.fencing_token <ℤ token

pub lock-IsPast :
    (m : TargetMeta) (f : PipelineFence)
    → IsPast (get ℕ_discrete f.pipeline_id m.fences) f
    → lock_pipeline_fence m f ≢ ok tt
lock-IsPast m f past h =
    let e = lock-inversion m f h in
    let p : IsPast (some (f.topology_generation, f.fencing_token)) f =
      subst (λ o. IsPast o f) e past in
    absurd (omega arith)

Reaches-IsPast :
    (row : Option (ℕ × ℤ)) (f : PipelineFence) (new : ℕ × ℤ)
    → Reaches row new
    → IsPast row f
    → IsPast (some new) f
Reaches-IsPast none f new r p = absurd p
Reaches-IsPast (some (g, t)) f (g', t') r p = omega arith

pub activate-IsPast :
    (m : TargetMeta) (g f : PipelineFence) {m' : TargetMeta}
    → activate_pipeline_fence m g ≡ ok m'
    → IsPast (get ℕ_discrete f.pipeline_id m.fences) f
    → IsPast (get ℕ_discrete f.pipeline_id m'.fences) f
activate-IsPast m g f {m'} h past =
    let a = activate-IsActivated m g h in
    elim (ℕ_discrete g.pipeline_id f.pipeline_id) [
      | no other ↦
          rw (a.fences f.pipeline_id, if_neg (ℕ_discrete g.pipeline_id f.pipeline_id) other) past
      | yes same ↦
          let at =
            subst
              (λ (p : ℕ).
                get ℕ_discrete p m'.fences ≡ some (g.topology_generation, g.fencing_token))
              same a.in_force in
          let r =
            subst
              (λ (p : ℕ).
                Reaches (get ℕ_discrete p m.fences) (g.topology_generation, g.fencing_token))
              same a.forward in
          rw at (
            Reaches-IsPast (get ℕ_discrete f.pipeline_id m.fences) f
              (g.topology_generation, g.fencing_token) r past)
    ]
