-- ===== src/Bluez.antt =====
-- The C sources of lib/bluez that the program builds into its `bluez` library.
pub mod Address
pub mod Att
pub mod GattClient
pub mod Queue
pub mod GattHelpers
pub mod GattDb
pub mod Uuid
