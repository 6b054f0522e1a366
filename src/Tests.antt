-- ===== src/Tests.antt =====
-- Concrete worlds, servers and services, and the theorems at concrete data.
mod World
mod Manager
mod Creations
mod Waiting
mod Caching
mod Routing
mod Jailed
mod Server
mod Stores
mod Workloads
mod Callers
mod Cells
mod Interpreters
mod Daemon
mod Management
mod Rotation
