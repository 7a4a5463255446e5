-- ===== src/Examples.antt =====
-- Concrete inputs and runs: the theorems at inputs that meet their hypotheses.
pub mod Inputs
mod Opened
mod Runs
mod Ssh
mod Certificates
mod Controlplanes
mod Etcd
mod Lifecycle
mod Checks
mod Resources
mod Kubelets
