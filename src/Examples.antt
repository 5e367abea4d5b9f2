-- ===== src/Examples.antt =====
-- Runs of the models at concrete inputs: the theorems of the other modules applied to them.
mod Guarding
mod Keying
mod Naming
mod Leasing
mod Accepting
mod Queueing
mod Radios
mod Spotting
mod Frequencies
mod Logging
mod Driving
mod Selecting
mod Reporting
