-- ===== src/Scenarios/Setup.antt =====
-- A query of one stage with one partition, a worker with two slots, and the calls between them.
use spark_x_distributed_quer.Base.{◌≡◌, refl, false, none, List, [], ◌∷◌}
use spark_x_distributed_quer.Error.{ok}
use spark_x_distributed_quer.Protocol.{
  protocol_version, PlanCodec, StagePlan, TaskAttemptId, TaskLease, ShuffleBlock, ShuffleLocation,
  TaskState, WorkerRegistration, WorkerMessage,
}
use spark_x_distributed_quer.Coordinator.State.{
  Coordinator, PartitionRuntime, StageKey, default_config, new,
}
use spark_x_distributed_quer.Coordinator.Calls.{
  Call, submits, receives, polls_for, cancels, advances,
}

abbrev pub codec : PlanCodec
codec = record { validate_fragment = λ _. ok tt }

abbrev pub empty : Coordinator
empty = record { config = default_config; workers = []; stages = []; cancelled_queries = [] }

pub empty_is_new : new default_config ≡ ok empty
unfolding new
empty_is_new = refl

abbrev pub stage : StagePlan
stage = record {
  query_id = "q";
  stage_id = 1;
  input_stages = [];
  partition_count = 1;
  plan_fragment = [];
  output_exchange = none;
  partitioned_input = false;
}

abbrev pub second : StagePlan
second = record stage { stage_id = 2; input_stages = 1 ∷ [] }

abbrev pub key : StageKey
key = ("q", 1)

abbrev pub task : TaskAttemptId
task = record { query_id = "q"; stage_id = 1; partition_id = 0; attempt = 0 }

abbrev pub block : ShuffleBlock
block = record {
  producer = task;
  output_partition = 0;
  rows = 3;
  bytes = 24;
  checksum = "c";
  location = ShuffleLocation.worker "w";
}

abbrev pub lease : TaskLease
lease = record { worker_id = "w"; issued_at_ms = 10; expires_at_ms = 30_010 }

abbrev pub leased : PartitionRuntime
leased = PartitionRuntime.active task "w" lease none

abbrev pub registration : WorkerRegistration
registration = record { worker_id = "w"; slots = 2; memory_bytes = 1024 }

abbrev pub submitted : List Call
submitted = receives (WorkerMessage.register protocol_version registration) 5 ∷ submits stage ∷ []

abbrev pub assigned : List Call
assigned =
    receives (WorkerMessage.register protocol_version registration) 5
    ∷ submits stage
    ∷ polls_for "w" 10
    ∷ []

abbrev pub committed : List Call
committed =
    receives (WorkerMessage.register protocol_version registration) 5
    ∷ submits stage
    ∷ polls_for "w" 10
    ∷ receives
        (WorkerMessage.task_update protocol_version "w" task (TaskState.succeeded 20 (block ∷ [])))
        25
    ∷ []

abbrev pub abandoned : List Call
abandoned = cancels "q" "user" ∷ advances 90_000 ∷ []
