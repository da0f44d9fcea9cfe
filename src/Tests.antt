-- ===== src/Tests.antt =====
-- The theorems at concrete inputs, and tests of the definitions by evaluation.
pub mod Wire
pub mod Forwarding
pub mod Routing
pub mod Neighbors
pub mod Routes
pub mod Trees
pub mod Protocol
