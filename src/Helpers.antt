-- ===== src/Helpers.antt =====
-- e-util/e-misc-utils.c: the helpers that compute something of their own.
pub mod Search
pub mod Bounds
pub mod Weekdays
pub mod Mnemonics
