-- ===== src/Context.antt =====
-- src/api/context/: the conversation context of a swarm, and the router that prunes it to the
-- model's window.
pub mod Floats
pub mod Models
pub mod Estimator
pub mod Router
pub mod Tests
