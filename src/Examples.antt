-- ===== src/Examples.antt =====
-- The theorems at concrete inputs.
mod Leases
mod Gates
mod Streams
mod Lifecycles
mod Images
mod Launches
mod Requests
mod Processes
mod Pumps
mod Deliveries
mod Approvals
