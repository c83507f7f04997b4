-- ===== src/Coordinator/Calls.antt =====
-- src/cluster/coordinator.rs: the entry points that advance the clock first, and every call of a
-- client as one step.
use spark_x_distributed_quer.Base.{
  ℕ, String, Bool, true, false, ◌&&◌, Option, none, some, List, [], ◌∷◌, str_ord, if◌then◌else◌,
  ltb,
}
use spark_x_distributed_quer.BTreeMap.{BTreeMap, get}
use spark_x_distributed_quer.Error.{ok, ok_or}
use spark_x_distributed_quer.Error.Exec.{Exec, proceed, lift, ◌>>◌}
use spark_x_distributed_quer.Protocol.{
  QueryId, WorkerId, StagePlan, PlanCodec, CoordinatorMessage, WorkerMessage,
  validate_worker_message,
}
use spark_x_distributed_quer.Coordinator.State.{WorkerRuntime, Coordinator, coordinator_error}
use spark_x_distributed_quer.Coordinator.Workers.{register_worker, record_heartbeat}
use spark_x_distributed_quer.Coordinator.Submit.{submit_stage}
use spark_x_distributed_quer.Coordinator.Time.{advance_time}
use spark_x_distributed_quer.Coordinator.Assign.{assign_to_worker}
use spark_x_distributed_quer.Coordinator.Updates.{record_task_update}
use spark_x_distributed_quer.Coordinator.Cancel.{cancel}

unfoldable pub dispatch : WorkerMessage → ℕ → Exec Coordinator (Unit {0})
unfolding register_worker record_heartbeat record_task_update
dispatch (WorkerMessage.register version registration) received_at_ms =
    register_worker registration received_at_ms
dispatch (WorkerMessage.heartbeat version heartbeat) received_at_ms =
    record_heartbeat heartbeat received_at_ms
dispatch (WorkerMessage.task_update version worker_id task state) received_at_ms =
    record_task_update worker_id task state received_at_ms

unfoldable pub handle_worker_message : WorkerMessage → ℕ → Exec Coordinator (Unit {0})
unfolding advance_time dispatch validate_worker_message
handle_worker_message message received_at_ms = do
  lift (validate_worker_message message)
  advance_time received_at_ms
  dispatch message received_at_ms

abbrev pub has_capacity : WorkerRuntime → Bool
has_capacity worker = worker.alive && ltb 0 worker.available_slots

-- `find` over the workers, in the order of their ids.
unfoldable pub first_available : BTreeMap WorkerId WorkerRuntime → Option WorkerId
first_available [] = none
first_available ((id, worker) ∷ rest) =
    if has_capacity worker then some id else first_available rest

abbrev pub assign_first :
    PlanCodec → ℕ → Option WorkerId → Exec Coordinator (Option CoordinatorMessage)
assign_first codec now_ms none c = (ok none, c)
assign_first codec now_ms (some worker_id) c = assign_to_worker codec worker_id now_ms c

unfoldable pub next_assignment : PlanCodec → ℕ → Exec Coordinator (Option CoordinatorMessage)
unfolding advance_time first_available assign_to_worker
next_assignment codec now_ms = do
  advance_time now_ms
  λ c. assign_first codec now_ms (first_available c.workers) c

abbrev pub assign_if :
    PlanCodec → WorkerId → ℕ → Bool → Exec Coordinator (Option CoordinatorMessage)
assign_if codec worker_id now_ms true c = assign_to_worker codec worker_id now_ms c
assign_if codec worker_id now_ms false c = (ok none, c)

unfoldable pub next_assignment_for :
    PlanCodec → WorkerId → ℕ → Exec Coordinator (Option CoordinatorMessage)
unfolding advance_time assign_to_worker get
next_assignment_for codec worker_id now_ms = do
  advance_time now_ms
  λ c.
      proceed
        (ok_or (get worker_id c.workers)
          (coordinator_error "unregistered worker requested an assignment"))
        (λ worker d. assign_if codec worker_id now_ms (has_capacity worker) d) c

-- A call from outside, with the time at which it is made where the call takes one.
pub data Call : Type 0 where
  submits : StagePlan → Call
  receives : WorkerMessage → ℕ → Call
  polls : ℕ → Call
  polls_for : WorkerId → ℕ → Call
  cancels : QueryId → String → Call
  advances : ℕ → Call

unfoldable pub step : PlanCodec → Coordinator → Call → Coordinator
unfolding advance_time cancel handle_worker_message next_assignment next_assignment_for submit_stage
step codec c (submits stage) = (submit_stage codec stage c).1
step codec c (receives message at) = (handle_worker_message message at c).1
step codec c (polls at) = (next_assignment codec at c).1
step codec c (polls_for worker_id at) = (next_assignment_for codec worker_id at c).1
step codec c (cancels query_id reason) = (cancel codec query_id reason c).1
step codec c (advances at) = (advance_time at c).1

unfoldable pub run : PlanCodec → Coordinator → List Call → Coordinator
unfolding step
run codec c [] = c
run codec c (call ∷ calls) = run codec (step codec c call) calls
