-- ===== src/Json.antt =====
-- JSON values as the services walk them: message bodies, fees and whole responses.
pub mod Value
pub mod Text
pub mod Addresses
pub mod Dates
mod Tests
