-- ===== src/Service/Safety.antt =====
-- Proofs about the runs of the connection in backend/pc_client/ble_service.py.
mod Good
mod Handlers
mod Turns
mod Attempts
pub mod Aims
pub mod Progress
pub mod Runs
pub mod Resting
pub mod Refused
mod Wishes
mod Landings
pub mod Undisturbed
