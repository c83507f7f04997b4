-- ===== src/Coordinator/Lifecycle/Evolves.antt =====
-- src/cluster/coordinator.rs: what a sequence of method calls leaves of a state: the configuration,
-- stages under distinct keys, and partitions that moved along the diagram.
use spark_x_distributed_quer.Base.{
  ℕ, ◌≡◌, ◌≤◌, refl, ◌∙◌, String, Option, none, some, arith, u32_max, str_ord, nat_ord, pair_ord,
}
use spark_x_distributed_quer.BTreeMap.{get, Distinct}
use spark_x_distributed_quer.BTreeMap.Laws.{Distinct-insert}
use spark_x_distributed_quer.Error.{ok}
use spark_x_distributed_quer.Error.Exec.{proceed-keeps}
use spark_x_distributed_quer.Protocol.{QueryId, StagePlan, PlanCodec}
use spark_x_distributed_quer.Coordinator.State.{Coordinator}
use spark_x_distributed_quer.Coordinator.Time.{advance_time}
use spark_x_distributed_quer.Coordinator.Time.Expiry.{
  advance_time-stages, advance_time_keeps, expire_stages-Distinct,
}
use spark_x_distributed_quer.Coordinator.Cancel.{cancel, check_cancel, cancel_new}
use spark_x_distributed_quer.Coordinator.Submit.{add_stage, submit_stage, check_stage, new_stage}
use spark_x_distributed_quer.Coordinator.Lifecycle.{Moves, Moves-refl, Moves-trans}
use spark_x_distributed_quer.Coordinator.Lifecycle.Writes.{Moves-insert}
use spark_x_distributed_quer.Coordinator.Lifecycle.Methods.{
  expire_stages-Moves, cancel_stages-Moves, cancel_stages-Distinct,
}

pub record Evolves (c s : Coordinator) : Type 0 where
  pub config : s.config ≡ c.config
  pub distinct : Distinct s.stages
  pub moves : Moves c.stages s.stages

pub Evolves-refl : (c : Coordinator) → Distinct c.stages → Evolves c c
Evolves-refl c d = record { config = refl; distinct = d; moves = Moves-refl c.stages }

-- One more change of the stages.
pub Evolves-stages :
    (c s t : Coordinator)
    → Evolves c s
    → t.config ≡ s.config
    → Distinct t.stages
    → Moves s.stages t.stages
    → Evolves c t
Evolves-stages c s t e f d m = record {
  config = f ∙ e.config;
  distinct = d;
  moves = Moves-trans c.stages s.stages t.stages e.moves m;
}

pub advance_time-Evolves :
    (c s : Coordinator) (now_ms : ℕ)
    → c.config.max_task_attempts ≤ u32_max
    → Evolves c s
    → Evolves c (advance_time now_ms s).1
advance_time-Evolves c s now_ms h e =
    Evolves-stages c s (advance_time now_ms s).1 e (advance_time_keeps now_ms s).0
      (rw (advance_time-stages now_ms s e.distinct)
        (expire_stages-Distinct _ _ _ s.stages e.distinct))
      (rw (advance_time-stages now_ms s e.distinct)
        (expire_stages-Moves _ _ _ s.stages (rw e.config h)))

cancel_new-Evolves :
    (c s : Coordinator) (query_id : QueryId) (reason : String) (before : Option String)
    → Evolves c s
    → Evolves c (cancel_new query_id reason before s).1
unfolding cancel_new
cancel_new-Evolves c s query_id reason none e =
    Evolves-stages c s (cancel_new query_id reason none s).1 e refl
      (cancel_stages-Distinct query_id s.stages e.distinct) (cancel_stages-Moves query_id s.stages)
cancel_new-Evolves c s query_id reason (some existing) e = ground arith

pub cancel-Evolves :
    (codec : PlanCodec) (c s : Coordinator) (query_id : QueryId) (reason : String)
    → Evolves c s
    → Evolves c (cancel codec query_id reason s).1
unfolding cancel
cancel-Evolves codec c s query_id reason e =
    proceed-keeps (Evolves c) (check_cancel codec query_id reason s)
      (λ _ d. cancel_new query_id reason (get query_id d.cancelled_queries) d) s e
      λ _ _. cancel_new-Evolves c s query_id reason (get query_id s.cancelled_queries) e

-- A stage that passes the checks has a new key.
pub check_stage-absent :
    (codec : PlanCodec) (stage : StagePlan) (c : Coordinator)
    → check_stage codec stage c ≡ ok tt
    → get (stage.query_id, stage.stage_id) c.stages ≡ none
unfolding check_stage
check_stage-absent codec stage c h = ground arith

pub submit_stage-Evolves :
    (codec : PlanCodec) (c s : Coordinator) (stage : StagePlan)
    → Evolves c s
    → Evolves c (submit_stage codec stage s).1
unfolding submit_stage add_stage
submit_stage-Evolves codec c s stage e =
    proceed-keeps (Evolves c) (check_stage codec stage s) (λ _ d. (ok tt, add_stage stage d)) s e
      λ _ passed.
        let absent = check_stage-absent codec stage s passed in
        Evolves-stages c s (add_stage stage s) e refl
          (Distinct-insert _ (new_stage stage) s.stages absent e.distinct)
          (Moves-insert s.stages _ (new_stage stage) absent)
