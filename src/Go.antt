-- ===== src/Go.antt =====
-- The parts of Go and of its standard library that the controllers use: errors, panics and the
-- state that a method works on (`Go/Outcome.antt`), byte slices and maps of them
-- (`Go/Bytes.antt`), `strings` and `fmt` (`Go/Text.antt`).
pub mod Outcome
pub mod Rules
pub mod Bytes
pub mod Text
