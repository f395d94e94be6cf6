-- ===== src/Eval.antt =====
-- cmd/evaluate/: what the measurements of the network stand on, the addresses of its hosts and the
-- allocators that goroutines share, the load of captured packets, and the controller's steps.
pub mod Addresses
pub mod Allocator
pub mod Files
pub mod Load
pub mod Controller
pub mod Churn
pub mod Session
