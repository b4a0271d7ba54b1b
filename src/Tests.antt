-- ===== src/Tests.antt =====
-- Concrete databases, registries and clients, and what the theorems say of them.
mod Data
mod Selecting
mod Balancing
mod Serving
mod Registering
mod Retrying
mod Api
mod Joining
mod Working
mod Living
mod Reaching
mod Rebalancing
mod Booting
mod Answers
