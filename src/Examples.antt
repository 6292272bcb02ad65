-- ===== src/Examples.antt =====
-- Concrete instances of what the development takes as parameters, and the theorems at concrete inputs.
pub mod Samples
pub mod Runs
pub mod Requests
pub mod Configs
pub mod Lookups
pub mod Saving
pub mod Servers
mod Engines
mod Secrets
pub mod Syncing
mod Clouds
pub mod Tables
pub mod Creating
pub mod Rotating
mod Updating
mod Broken
