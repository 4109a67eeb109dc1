-- ===== src/Examples.antt =====
-- Runs of the modelled code at concrete inputs: the pipes, requests and stores that show that what
-- the library's theorems ask for can be had.
mod Pipes
mod Protocol
mod Requests
mod Mutations
mod Queue
mod Objects
mod Logs
mod Texts
mod Effects
mod Dispatches
mod Executions
mod Batches
mod Outcomes
mod Agreements
