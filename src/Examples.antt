-- ===== src/Examples.antt =====
-- Runs of the theorems on concrete states and inputs.
mod Timers
mod Wire
mod Sockets
mod Tests
mod Errors
mod Objects
mod Parameters
mod Runs
mod Sessions
mod Streams
mod Reports
mod Alarms
mod Units
mod Life
mod Formats
