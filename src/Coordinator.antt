-- ===== src/Coordinator.antt =====
-- The coordinator's gRPC server, internal/coordinator/server/grpc.go.
pub mod Messages
pub mod Server
pub mod Tasks
pub mod Compile
pub mod Dispatch
pub mod Outcome
pub mod Placement
pub mod Build
pub mod BuildCache
pub mod Queries
pub mod Registration
pub mod Jobs
