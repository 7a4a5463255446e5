-- ===== src/Container.antt =====
-- pkg/container and pkg/container/types: containers on remote hosts.
pub mod Types
pub mod Single
pub mod Forwarding
pub mod Configured
pub mod Mounts
pub mod State
pub mod Containers
pub mod Deploy
pub mod Exported
