-- ===== src/Protocol/Dependencies.antt =====
-- src/cluster/protocol.rs, `StagePlan::validate`: which dependency lists it accepts.
use spark_x_distributed_quer.Base.{
  ◌≡◌, ◌≢◌, ◌↔◌, refl, List, [], ◌∷◌, All, All-imp, arith, false, ==_iff,
}
use spark_x_distributed_quer.Error.{ok}
use spark_x_distributed_quer.Protocol.{StageId, has_stage, validate_dependencies}

-- No stage stands twice.
abbrev pub Unique : List StageId → Type 0
Unique [] = Unit
Unique (d ∷ ds) = All (λ e. d ≢ e) ds × Unique ds

abbrev IsFresh : StageId → List StageId → StageId → Type 0
IsFresh stage_id seen d = (d ≢ stage_id) × (has_stage seen d ≡ false)

IsFresh-later :
    (stage_id d : StageId) (seen : List StageId) (e : StageId)
    → IsFresh stage_id (d ∷ seen) e
    → (d ≢ e) × IsFresh stage_id seen e
IsFresh-later stage_id d seen e h = ground (arith, ==_iff d e, h)

IsFresh-now :
    (stage_id d : StageId) (seen : List StageId) (e : StageId)
    → (d ≢ e) × IsFresh stage_id seen e
    → IsFresh stage_id (d ∷ seen) e
IsFresh-now stage_id d seen e h = ground (arith, ==_iff d e, h)

module _ {ℓ κ} {A : Type ℓ} (P Q : A → Type κ) where
  All-both : (xs : List A) → All P xs → All Q xs → All (λ x. P x × Q x) xs
  All-both [] h g = tt
  All-both (x ∷ xs) h g = ((h.0, g.0), All-both xs h.1 g.1)

accepts :
    (stage_id : StageId) (ds seen : List StageId)
    → All (IsFresh stage_id seen) ds
    → Unique ds
    → validate_dependencies stage_id seen ds ≡ ok tt
unfolding validate_dependencies
accepts stage_id [] seen f u = refl
accepts stage_id (d ∷ ds) seen f u =
    let later =
      accepts stage_id ds (d ∷ seen)
        (All-imp (IsFresh-now stage_id d seen) ds
          (All-both (λ e. d ≢ e) (IsFresh stage_id seen) ds u.0 f.1))
        u.1 in
    ground (arith, later, f.0, ==_iff d stage_id)

accepted :
    (stage_id : StageId) (ds seen : List StageId)
    → validate_dependencies stage_id seen ds ≡ ok tt
    → All (IsFresh stage_id seen) ds × Unique ds
unfolding validate_dependencies
accepted stage_id [] seen h = (tt, tt)
accepted stage_id (d ∷ ds) seen h =
    let rest : validate_dependencies stage_id (d ∷ seen) ds ≡ ok tt = ground (arith, h) in
    let (f, u) = accepted stage_id ds (d ∷ seen) rest in
    let first : IsFresh stage_id seen d =
      (ground (arith, h, ==_iff d stage_id), ground (arith, h)) in
    (
      (first, All-imp (λ e x. (IsFresh-later stage_id d seen e x).1) ds f),
      (All-imp (λ e x. (IsFresh-later stage_id d seen e x).0) ds f, u),
    )

-- The dependencies of a stage are accepted exactly if none is the stage itself and none stands twice.
pub validate_dependencies_iff :
    (stage_id : StageId) (dependencies : List StageId)
    → (validate_dependencies stage_id [] dependencies ≡ ok tt)
      ↔ (All (λ d. d ≢ stage_id) dependencies × Unique dependencies)
validate_dependencies_iff stage_id dependencies = (
  λ h. let (f, u) = accepted stage_id dependencies [] h in (All-imp (λ d x. x.0) dependencies f, u),
  λ h. accepts stage_id dependencies [] (All-imp (λ d x. (x, refl)) dependencies h.0) h.1,
)
