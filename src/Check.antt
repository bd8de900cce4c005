-- ===== src/Check.antt =====
-- eventcheck/: the checks that an event passes before it is processed.
pub mod Parents
pub mod GasPower
pub mod Basic
