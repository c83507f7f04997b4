-- ===== src/Scenarios/Histories.antt =====
-- Histories of calls of one coordinator.
use spark_x_distributed_quer.Base.{
  ◌≡◌, ◌≢◌, ◌≤◌, ◌+◌, refl, none, some, List, [], ◌∷◌, ◌++◌, true, arith, str_ord,
}
use spark_x_distributed_quer.BTreeMap.{get}
use spark_x_distributed_quer.Error.{ok, IsPanic}
use spark_x_distributed_quer.Protocol.{TaskState, WorkerMessage, protocol_version}
use spark_x_distributed_quer.Coordinator.State.{
  PartitionRuntime, default_config, StageStatus, WorkerRuntime,
}
use spark_x_distributed_quer.Coordinator.Status.{stage_status}
use spark_x_distributed_quer.Coordinator.Workers.{count_active}
use spark_x_distributed_quer.Coordinator.Cancel.{cancel, cancellation}
use spark_x_distributed_quer.Coordinator.Calls.{Call, receives, polls_for, advances, run}
use spark_x_distributed_quer.Coordinator.Lifecycle.{partition_at, Follows, NotBefore, attempt_of}
use spark_x_distributed_quer.Coordinator.Commit.{
  run-Follows, committed_output_is_final, attempts_never_fall,
}
use spark_x_distributed_quer.Coordinator.Attempts.{IsBelow}
use spark_x_distributed_quer.Coordinator.Attempts.Histories.{attempts_are_limited}
use spark_x_distributed_quer.Coordinator.Panics.Histories.{answer, no_call_panics}
use spark_x_distributed_quer.Coordinator.Slots.Calls.{
  no_worker_is_overbooked, unregistered_worker_has_no_task,
}
use spark_x_distributed_quer.Coordinator.Cancelled.{
  IsStopped, run-cancel-IsStopped, cancelled_partition_blocks_stage,
}
use spark_x_distributed_quer.Scenarios.Setup.{
  codec, empty, empty_is_new, key, task, block, registration, assigned, submitted, committed,
  abandoned, leased,
}

is_committed :
    partition_at (run codec empty committed) key 0
    ≡ some (PartitionRuntime.succeeded task (block ∷ []))
unfolding partition_at run
is_committed = refl

committed_output_is_final_example :
    partition_at (run codec (run codec empty committed) abandoned) key 0
    ≡ some (PartitionRuntime.succeeded task (block ∷ []))
committed_output_is_final_example =
    committed_output_is_final codec default_config empty_is_new (omega arith) committed abandoned
      key 0 task (block ∷ []) is_committed

is_leased : partition_at (run codec empty assigned) key 0 ≡ some leased
unfolding partition_at run
is_leased = refl

run-Follows_example :
    Follows leased (partition_at (run codec (run codec empty assigned) abandoned) key 0)
run-Follows_example =
    run-Follows codec default_config empty_is_new (omega arith) assigned abandoned key 0 leased
      is_leased

attempts_never_fall_example :
    (q : PartitionRuntime) × (partition_at
        (run codec (run codec empty assigned) (advances 90_000 ∷ []))
        key
        0
      ≡ some q)
    × NotBefore (some 0) (attempt_of q)
attempts_never_fall_example =
    attempts_never_fall codec default_config empty_is_new (omega arith) assigned
      (advances 90_000 ∷ []) key 0 leased is_leased

attempts_are_limited_example : IsBelow 3 leased
attempts_are_limited_example =
    attempts_are_limited codec default_config assigned key 0 leased empty_is_new (omega arith)
      is_leased

no_call_panics_example : ¬ IsPanic (answer codec (run codec empty submitted) (polls_for "w" 10))
no_call_panics_example =
    no_call_panics codec default_config submitted (polls_for "w" 10) empty_is_new (omega arith)
      (omega arith, (tt, tt)) (λ _ x. x)

abbrev busy : WorkerRuntime
busy = record {
  registration = registration;
  last_observed_at_ms = 0;
  last_received_at_ms = 5;
  available_slots = 1;
  available_memory_bytes = 1024;
  alive = true;
}

is_busy : get "w" (run codec empty assigned).workers ≡ some busy
unfolding get run
is_busy = refl

no_worker_is_overbooked_example : 1 + count_active "w" (run codec empty assigned).stages ≤ 2
no_worker_is_overbooked_example =
    no_worker_is_overbooked codec default_config assigned empty_is_new (omega arith, (tt, (tt, tt)))
      "w" busy is_busy

is_unknown : get "v" (run codec empty assigned).workers ≡ none
unfolding get run
is_unknown = refl

unregistered_worker_has_no_task_example : count_active "v" (run codec empty assigned).stages ≡ 0
unregistered_worker_has_no_task_example =
    unregistered_worker_has_no_task codec default_config assigned empty_is_new
      (omega arith, (tt, (tt, tt))) "v" is_unknown

not_cancelled : get "q" (run codec empty assigned).cancelled_queries ≡ none
unfolding get run
not_cancelled = refl

is_accepted : (cancel codec "q" "user" (run codec empty assigned)).0 ≡ ok (cancellation "q" "user")
unfolding cancel run
is_accepted = refl

run-cancel-IsStopped_example :
    (r : PartitionRuntime) × (partition_at
        (run codec (cancel codec "q" "user" (run codec empty assigned)).1 (advances 20 ∷ []))
        key
        0
      ≡ some r)
    × IsStopped r
run-cancel-IsStopped_example =
    run-cancel-IsStopped codec default_config empty_is_new (omega arith) assigned (advances 20 ∷ [])
      "q" "user" (cancellation "q" "user") key 0 leased not_cancelled is_accepted refl is_leased

abbrev withdrawn : List Call
withdrawn =
    assigned
    ++ receives
        (WorkerMessage.task_update protocol_version "w" task (TaskState.cancelled 20 "stop")) 25
      ∷ []

is_withdrawn : partition_at (run codec empty withdrawn) key 0 ≡ some PartitionRuntime.cancelled
unfolding partition_at run
is_withdrawn = refl

cancelled_partition_blocks_stage_example :
    (partition_at (run codec (run codec empty withdrawn) (advances 90_000 ∷ [])) key 0
      ≡ some PartitionRuntime.cancelled)
    × (stage_status (run codec (run codec empty withdrawn) (advances 90_000 ∷ [])) "q" 1
        ≢ ok StageStatus.succeeded)
cancelled_partition_blocks_stage_example =
    cancelled_partition_blocks_stage codec default_config empty_is_new (omega arith) withdrawn
      (advances 90_000 ∷ []) key 0 is_withdrawn

-- The query was not cancelled, and yet its stage still counts as ready, with nothing to assign.
stays_ready : stage_status (run codec empty withdrawn) "q" 1 ≡ ok StageStatus.ready
unfolding stage_status run
stays_ready = refl
