-- ===== src/Examples.antt =====
-- Concrete runs: tests of the definitions, and each theorem at an input that meets its hypotheses.
mod Dispatch
mod Queues
mod Fetch
mod Forks
mod Storage
mod Screening
mod Endpoints
mod Restart
mod Decoding
mod Settings
mod Bootstrap
mod Mappings
mod Tables
mod Ingestion
mod Manifests
mod Starts
