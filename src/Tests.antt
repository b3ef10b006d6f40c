-- ===== src/Tests.antt =====
-- Concrete runs: a sample environment, tests by evaluation, and the theorems at concrete inputs.
mod Sample
mod Texts
mod Processes
mod Handling
mod Operations
mod Wire
mod Transport
mod Messages
mod Logging
mod Agreed
mod App
mod Trust
mod Cluster
