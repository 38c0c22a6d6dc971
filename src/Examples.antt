-- ===== src/Examples.antt =====
-- The theorems at concrete inputs.
mod Histories
mod Projections
mod Binds
mod Attaches
mod Lifecycles
mod Backends
mod Settings
mod Connections
mod Hubs
mod Requests
mod Observations
