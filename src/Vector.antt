-- ===== src/Vector.antt =====
-- vector/: vector clocks.
pub mod Bytes
pub mod Clock
pub mod Branches
pub mod Index
pub mod ForklessCause
pub mod Observe
pub mod Lowest
pub mod Merge
pub mod MedianTime
