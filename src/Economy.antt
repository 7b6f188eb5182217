-- ===== src/Economy.antt =====
-- src/economy.rs and src/economy/: fuel accounts, fuel vouchers and the settlement bridge.
pub mod Crypto
pub mod Examples
pub mod Registry
pub mod Vouchers
pub mod Bridge
