-- ===== src/Protocol/Blocks.antt =====
-- src/cluster/protocol.rs: `ShuffleLocation`, `ShuffleBlock` and `TaskState`.
use spark_x_distributed_quer.Base.{
  ℕ, String, Bool, false, not, ◌&&◌, Option, none, some, List, [], ◌∷◌, key_eq, str_ord,
}
use spark_x_distributed_quer.Text.{is_blank, any_whitespace, strip_prefix}
use spark_x_distributed_quer.Error.{Result, ok, reject_if, ◌>>◌}
use spark_x_distributed_quer.Protocol.Ids.{protocol_error, WorkerId, PartitionId, validate_text_id}
use spark_x_distributed_quer.Protocol.Tasks.{TaskAttemptId, task_eq, validate_task}

pub data ShuffleLocation : Type 0 where
  worker : WorkerId → ShuffleLocation
  flight : (worker_id : WorkerId) (endpoint ticket : String) → ShuffleLocation
  object_store : String → ShuffleLocation

pub record ShuffleBlock : Type 0 where
  pub producer : TaskAttemptId
  pub output_partition : PartitionId
  pub rows : ℕ
  pub bytes : ℕ
  pub checksum : String
  pub location : ShuffleLocation

-- `strip_prefix("http://").or_else(|| strip_prefix("https://"))`
unfoldable pub endpoint_authority : String → Option String
unfolding strip_prefix
endpoint_authority endpoint = elim (strip_prefix "http://" endpoint) [
  | none ↦ strip_prefix "https://" endpoint
  | some authority ↦ some authority
]

unfoldable pub is_authority : Option String → Bool
unfolding any_whitespace is_blank
is_authority none = false
is_authority (some value) = not (is_blank value) && not (any_whitespace value)

unfoldable pub validate_location : ShuffleLocation → Result (Unit {0})
unfolding endpoint_authority is_authority is_blank validate_text_id
validate_location (worker worker_id) = validate_text_id worker_id
validate_location (flight worker_id endpoint ticket) = do
  validate_text_id worker_id
  reject_if (not (is_authority (endpoint_authority endpoint)))
      (protocol_error "Flight shuffle endpoint must contain an http:// or https:// authority")
  reject_if (is_blank ticket) (protocol_error "Flight shuffle ticket must not be empty")
validate_location (object_store uri) =
    reject_if (is_blank uri) (protocol_error "shuffle object-store location must not be empty")

unfoldable pub validate_block : ShuffleBlock → Result (Unit {0})
unfolding is_blank validate_location validate_task
validate_block block = do
  validate_task block.producer
  reject_if (is_blank block.checksum) (protocol_error "shuffle block checksum must not be empty")
  validate_location block.location

unfoldable pub validate_owner : ShuffleLocation → WorkerId → Result (Unit {0})
validate_owner (worker worker_id) reporting =
    reject_if (not (key_eq worker_id reporting))
      (protocol_error "in-memory shuffle block must be owned by the reporting worker")
validate_owner (flight worker_id endpoint ticket) reporting =
    reject_if (not (key_eq worker_id reporting))
      (protocol_error "Flight shuffle block must be owned by the reporting worker")
validate_owner (object_store uri) reporting = ok tt

unfoldable pub validate_block_for : ShuffleBlock → TaskAttemptId → WorkerId → Result (Unit {0})
unfolding task_eq validate_block validate_owner
validate_block_for block task reporting = do
  validate_block block
  reject_if (not (task_eq block.producer task))
      (protocol_error "shuffle block producer does not match task update")
  validate_owner block.location reporting

pub data TaskState : Type 0 where
  running : (started_at_ms : ℕ) → TaskState
  succeeded : (finished_at_ms : ℕ) (output_blocks : List ShuffleBlock) → TaskState
  failed : (finished_at_ms : ℕ) (error : String) (retryable : Bool) → TaskState
  cancelled : (finished_at_ms : ℕ) (reason : String) → TaskState

unfoldable pub validate_blocks_for :
    List ShuffleBlock → TaskAttemptId → WorkerId → Result (Unit {0})
unfolding validate_block_for
validate_blocks_for [] task reporting = ok tt
validate_blocks_for (block ∷ rest) task reporting = do
  validate_block_for block task reporting
  validate_blocks_for rest task reporting

unfoldable pub validate_state_for : TaskState → TaskAttemptId → WorkerId → Result (Unit {0})
unfolding is_blank validate_blocks_for
validate_state_for (running started_at_ms) task worker_id = ok tt
validate_state_for (succeeded finished_at_ms output_blocks) task worker_id =
    validate_blocks_for output_blocks task worker_id
validate_state_for (failed finished_at_ms error retryable) task worker_id =
    reject_if (is_blank error) (protocol_error "failed task must include an error")
validate_state_for (cancelled finished_at_ms reason) task worker_id =
    reject_if (is_blank reason) (protocol_error "cancelled task must include a reason")
