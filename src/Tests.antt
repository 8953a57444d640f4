-- ===== src/Tests.antt =====
-- The theorems at concrete inputs: the fixtures, and an example for each part.
pub mod Fixtures
pub mod Paths
pub mod Boards
pub mod Torn
pub mod Servers
pub mod Tools
pub mod Floating
pub mod Benches
pub mod Loops
pub mod Filling
pub mod Hardware
pub mod Tops
