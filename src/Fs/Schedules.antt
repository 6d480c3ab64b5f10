-- ===== src/Fs/Schedules.antt =====
-- The schedules of the repository, schedules/v1.c to schedules/v10.c.
pub mod V1
pub mod V2
pub mod V3
pub mod V4
pub mod V5
pub mod V6
pub mod V7
pub mod V8
pub mod V9
pub mod V10
