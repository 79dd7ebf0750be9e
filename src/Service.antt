-- ===== src/Service.antt =====
-- src/rpc: the methods of the daemon over their messages, and the stubs that call them.
pub mod Messages
pub mod Handlers
pub mod Register
pub mod Entries
pub mod Stubs
pub mod RoundTrip
pub mod Race
pub mod Methods
pub mod Owned
pub mod Tests
