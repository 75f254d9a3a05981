-- ===== src/DriverRefs.antt =====
-- References read from the edge files of the rustc driver (src/driver_refs.rs), as a function of the
-- graph and of what the directory of the edge files holds.
pub mod Lines
pub mod Locator
pub mod Reader
pub mod Ids
pub mod Sound
pub mod Again
mod Examples
