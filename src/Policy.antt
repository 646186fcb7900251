-- ===== src/Policy.antt =====
-- cli/replica_policy.py: fault attribution, conversation ownership, transfer brakes and probes.
-- Times are whole milliseconds; the source keeps them as seconds in floats.
pub mod Faults
pub mod Targets
pub mod Config
pub mod Transfer
pub mod Probe
