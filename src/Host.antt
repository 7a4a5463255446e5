-- ===== src/Host.antt =====
-- pkg/host/host.go and pkg/host/transport: how a container runtime is reached.
pub mod Agent
pub mod Config
pub mod Merge
pub mod NoAttempt
pub mod Valid
pub mod Ssh
pub mod Transport
