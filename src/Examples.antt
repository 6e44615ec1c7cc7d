-- ===== src/Examples.antt =====
-- Runs of the modelled code on small inputs, and each theorem at one of them.
mod Freeing
mod Queues
mod Cutting
mod Following
mod Managing
mod Asking
mod Packaging
mod Zoning
mod Telling
mod Connecting
mod Scheduling
mod Tasking
mod Reporting
