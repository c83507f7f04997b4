-- ===== src/PlanCodec.antt =====
-- src/cluster/plan_codec.rs: the codec of plan fragments.
pub mod Wire
pub mod Codes
pub mod Exprs
pub mod Schemas
pub mod Encode
pub mod Encodable
pub mod Decode
pub mod Validate
pub mod RoundTrip
pub mod Accepted
pub mod Fragments
pub mod Aliases
