-- ===== src/Money.antt =====
-- packages/money/src/index.ts
pub mod Number
pub mod Arith
pub mod Currency
pub mod Parse
pub mod Balance
mod Tests
