-- ===== src/Config.antt =====
-- config/: the configuration variables over viper, with their environment names, the variables that
-- can be reloaded, and what is notified when the configuration changes.
pub mod Types
pub mod Env
pub mod Access
pub mod Getters
pub mod Notify
pub mod Change
pub mod Lookup
pub mod Reload
pub mod Pass
pub mod Coherent
pub mod Changed
pub mod Registry
pub mod Registered
pub mod Observers
pub mod Settings
pub mod EnvNames
pub mod EnvForm
mod Tests
