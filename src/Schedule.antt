-- ===== src/Schedule.antt =====
-- src/scheduling_util/_schedule.py
pub mod Loop
pub mod Attempt
pub mod SetUp
pub mod Prepare
pub mod Repeat
pub mod Whole
