-- ===== src/Coordinator/Jobs.antt =====
-- The handlers `Compile` and `Build` of internal/coordinator/server/grpc.go as goroutines that share
-- the server. A handler stops at the choice of a worker, before that worker is booked (a
-- build waits there for its connection), at the call of the worker and at its deferred calls; the parts between are the steps here, and an interleaving of them is a list of
-- events.
pub mod Count
pub mod Parts
pub mod Accounted
pub mod Balance
pub mod Steps
pub mod Load
pub mod Known
pub mod Booked
pub mod Orderly
