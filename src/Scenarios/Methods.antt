-- ===== src/Scenarios/Methods.antt =====
-- Single calls of the coordinator, and lists of dependencies.
use spark_x_distributed_quer.Base.{
  true, arith, key_eq_iff, ◌++◌, str_ord, nat_ord, pair_ord, ℕ, String, ◌≡◌, ◌≢◌, ◌↔◌, refl, some,
  [], ◌∷◌, All,
}
use spark_x_distributed_quer.BTreeMap.{get, Distinct}
use spark_x_distributed_quer.Error.{ok, err, is_ok}
use spark_x_distributed_quer.Protocol.{
  TaskState, CoordinatorMessage, WorkerMessage, validate_worker_message, assign_task,
  protocol_version, validate_dependencies, validate_coordinator_message,
}
use spark_x_distributed_quer.Protocol.Dependencies.{Unique, validate_dependencies_iff}
use spark_x_distributed_quer.Coordinator.State.{
  StageRuntime, PartitionRuntime, Coordinator, coordinator_error,
}
use spark_x_distributed_quer.Coordinator.Time.{advance_time, timed_out_workers}
use spark_x_distributed_quer.Coordinator.Time.Expiry.{expire_stages, advance_time-stages}
use spark_x_distributed_quer.Coordinator.Due.{IsCurrent, advance_time-IsCurrent}
use spark_x_distributed_quer.Coordinator.Status.{dependencies_succeeded}
use spark_x_distributed_quer.Coordinator.Outputs.{outputs_of, dependency_output_blocks-outputs}
use spark_x_distributed_quer.Coordinator.Assign.{dependency_output_blocks, assign_to_worker}
use spark_x_distributed_quer.Coordinator.Assignments.{
  IsFiled, IsAssignment, assign_to_worker-IsAssignment,
}
use spark_x_distributed_quer.Coordinator.Updates.{record_task_update}
use spark_x_distributed_quer.Coordinator.Reports.{
  Holds, accepted_report_is_authorized, accepted_success_commits,
}
use spark_x_distributed_quer.Coordinator.Refused.{
  received, perform, refused_call_only_advances_time,
}
use spark_x_distributed_quer.Coordinator.Cancel.{cancel, cancellation}
use spark_x_distributed_quer.Coordinator.Repeated.{
  repeated_cancel_changes_nothing, other_cancel_is_refused,
}
use spark_x_distributed_quer.Coordinator.Calls.{run, submits}
use spark_x_distributed_quer.Coordinator.Lifecycle.{partition_at}
use spark_x_distributed_quer.Scenarios.Setup.{
  second, committed, codec, empty, stage, key, task, lease, leased, block, registration, assigned,
  submitted,
}

abbrev now : Coordinator
now = run codec empty assigned

distinct : Distinct now.stages
unfolding run get
distinct = (refl, tt)

advance_time-stages_example :
    (advance_time 90_000 now).1.stages
    ≡ expire_stages now.config.max_task_attempts 90_000
        (timed_out_workers 90_000 now.config.heartbeat_timeout_ms now.workers)
        now.stages
advance_time-stages_example = advance_time-stages 90_000 now distinct

is_current : partition_at (advance_time 20 now).1 key 0 ≡ some leased
unfolding partition_at advance_time run
is_current = refl

advance_time-IsCurrent_example : IsCurrent now 20 leased
advance_time-IsCurrent_example = advance_time-IsCurrent 20 now key 0 leased distinct is_current

abbrev before : Coordinator
before = run codec empty submitted

abbrev message : CoordinatorMessage
message = assign_task protocol_version stage task lease []

is_assigned : (assign_to_worker codec "w" 10 before).0 ≡ ok (some message)
unfolding assign_to_worker run
is_assigned = refl

Distinct-before : Distinct before.stages
unfolding run get
Distinct-before = (refl, tt)

is_filed : IsFiled before
unfolding run get
is_filed k s h = ground (arith, h, key_eq_iff key k)

assign_to_worker-IsAssignment_example :
    IsAssignment codec "w" 10 before (assign_to_worker codec "w" 10 before).1 message
assign_to_worker-IsAssignment_example =
    assign_to_worker-IsAssignment codec "w" 10 before message Distinct-before is_filed is_assigned

abbrev success : TaskState
success = TaskState.succeeded 20 (block ∷ [])

is_taken : (record_task_update "w" task success 25 now).0 ≡ ok tt
unfolding record_task_update run
is_taken = refl

is_there : partition_at now key 0 ≡ some leased
unfolding partition_at run
is_there = refl

accepted_report_is_authorized_example :
    (p : PartitionRuntime) × (partition_at now key 0 ≡ some p) × Holds "w" task 25 p
accepted_report_is_authorized_example =
    accepted_report_is_authorized "w" task success 25 now is_taken

accepted_success_commits_example :
    partition_at (record_task_update "w" task success 25 now).1 key 0
    ≡ some (PartitionRuntime.succeeded task (block ∷ []))
accepted_success_commits_example =
    accepted_success_commits "w" task 20 25 (block ∷ []) now leased is_there is_taken

-- A worker that registers again, after its lease has run out.
abbrev again : WorkerMessage
again = WorkerMessage.register protocol_version registration

is_refused :
    (perform codec (received again 90) now).0
    ≡ err (coordinator_error "worker is already registered")
unfolding perform run
is_refused = refl

refused_call_only_advances_time_example :
    (perform codec (received again 90) now).1 ≡ (advance_time 90 now).1
unfolding is_ok validate_worker_message
refused_call_only_advances_time_example =
    refused_call_only_advances_time codec (received again 90) now
      (coordinator_error "worker is already registered") is_refused

is_cancelled : (cancel codec "q" "user" now).0 ≡ ok (cancellation "q" "user")
unfolding cancel run
is_cancelled = refl

repeated_cancel_changes_nothing_example :
    cancel codec "q" "user" (cancel codec "q" "user" now).1
    ≡ (ok (cancellation "q" "user"), (cancel codec "q" "user" now).1)
repeated_cancel_changes_nothing_example =
    repeated_cancel_changes_nothing codec "q" "user" now (cancellation "q" "user") is_cancelled

other_reason : ◌≢◌ {A = String} "user" "timeout"
other_reason h = cc

is_valid : validate_coordinator_message codec (cancellation "q" "timeout") ≡ ok tt
unfolding validate_coordinator_message
is_valid = refl

other_cancel_is_refused_example : cancel codec "q" "timeout" (cancel codec "q" "user" now).1 ≡ (
  err (coordinator_error "query was already cancelled for a different reason"),
  (cancel codec "q" "user" now).1,
)
other_cancel_is_refused_example =
    other_cancel_is_refused codec "q" "user" "timeout" now (cancellation "q" "user") is_cancelled
      other_reason is_valid

validate_dependencies_iff_example :
    (validate_dependencies 3 [] (1 ∷ 2 ∷ []) ≡ ok tt)
    ↔ (All (λ (d : ℕ). d ≢ 3) (1 ∷ 2 ∷ []) × Unique (1 ∷ 2 ∷ []))
validate_dependencies_iff_example = validate_dependencies_iff 3 (1 ∷ 2 ∷ [])

abbrev chained : Coordinator
chained = run codec empty (committed ++ submits second ∷ [])

abbrev second_stage : StageRuntime
second_stage = record { plan = second; partitions = PartitionRuntime.pending 0 ∷ [] }

is_second : get ("q", 2) chained.stages ≡ some second_stage
unfolding get run
is_second = refl

is_ready : dependencies_succeeded chained.stages second ≡ true
unfolding dependencies_succeeded run
is_ready = refl

dependency_output_blocks-outputs_example :
    dependency_output_blocks chained ("q", 2) ≡ outputs_of chained "q" (1 ∷ [])
dependency_output_blocks-outputs_example =
    dependency_output_blocks-outputs chained ("q", 2) second_stage is_second refl is_ready
