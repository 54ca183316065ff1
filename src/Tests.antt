-- ===== src/Tests.antt =====
-- Concrete runs of the model, and instances of its theorems.
mod Samples
mod LoopRuns
mod Histories
mod Jobs
mod Limiters
mod ExitCodes
mod Attempts
mod SetUps
mod Sockets
mod Options
mod Locks
mod Appends
mod Servers
mod Starts
mod Controls
mod Redactions
mod Writes
mod Wholes
mod CommandLines
mod Logs
