-- ===== src/Protocol/Ids.antt =====
-- src/cluster/protocol.rs: versions and identifiers. The newtypes `QueryId`, `WorkerId`, `StageId` and
-- `PartitionId` are what they wrap.
use Prim.Native.String.{len, ◌++◌}
use spark_x_distributed_quer.Base.{ℕ, String, not, ltb, ◌==◌}
use spark_x_distributed_quer.Text.{is_blank}
use spark_x_distributed_quer.Error.{SparkXError, protocol, Result, reject_if, ◌>>◌}

abbrev pub protocol_version : ℕ
protocol_version = 5

abbrev pub QueryId : Type 0
QueryId = String

abbrev pub WorkerId : Type 0
WorkerId = String

abbrev pub StageId : Type 0
StageId = ℕ

abbrev pub PartitionId : Type 0
PartitionId = ℕ

-- `protocol_error`
unfoldable pub protocol_error : String → SparkXError
protocol_error message = protocol ("invalid distributed protocol message: " ++ message)

unfoldable pub validate_version : ℕ → Result (Unit {0})
validate_version version =
    reject_if (not (version == protocol_version)) (protocol_error "unsupported protocol version")

unfoldable pub validate_text_id : String → Result (Unit {0})
unfolding is_blank
validate_text_id value = do
  reject_if (is_blank value) (protocol_error "ID must not be empty")
  reject_if (ltb 128 (len value)) (protocol_error "ID must not exceed 128 bytes")
