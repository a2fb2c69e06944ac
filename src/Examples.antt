-- ===== src/Examples.antt =====
-- Examples at concrete inputs: the machine of Examples/Machine, and what the theorems say of it.
mod Machine
mod Stores
mod Clients
mod Flows
mod Nodes
mod Supervision
mod Configuration
mod Connecting
