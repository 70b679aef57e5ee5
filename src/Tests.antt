-- ===== src/Tests.antt =====
-- Runs of the model on concrete data: the test data, and the theorems applied to it.
mod Demo
mod Trail
mod Access
mod Cases
mod Usage
mod Limits
mod Secrets
mod Pipeline
mod Scores
mod Searches
mod Runs
mod Start
mod Model
mod Schema
mod Counters
