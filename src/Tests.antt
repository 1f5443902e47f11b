-- ===== src/Tests.antt =====
-- Runs of the program at concrete inputs, by its parts.
mod Data
mod Pacing
mod Store
mod Sqlite
mod Again
mod Retries
mod Server
mod Redis
mod Distributed
mod Broker
mod Policies
mod Settings
