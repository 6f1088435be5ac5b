-- ===== src/Examples.antt =====
-- The theorems applied to concrete inputs, and runs of the model on them.
mod Data
mod Machine
mod Restarts
mod Docker
mod Topics
mod World
mod Settings
mod Cycles
mod Lives
mod Exceptions
mod Redaction
mod Launches
mod Secrets
mod Recoveries
