-- ===== src/Scheduler.antt =====
-- internal/scheduler/scheduler.go
pub mod Match
pub mod Gpus
pub mod Select
pub mod Placement
pub mod Waiting
pub mod Examine
pub mod Offers
pub mod Order
pub mod Found
pub mod Admission
pub mod Flags
pub mod Devices
pub mod Shortages
pub mod Reasons
pub mod Pass
