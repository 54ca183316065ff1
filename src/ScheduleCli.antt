-- ===== src/ScheduleCli.antt =====
-- src/scheduling_util/_schedule_cli.py: the scheduled functions that the commands build.
pub mod OrderedSet
pub mod ExitCodes
pub mod Outcomes
pub mod Commands
pub mod Subprocess
pub mod Calls
pub mod ControlCommands
pub mod Answered
pub mod Start
pub mod Options
