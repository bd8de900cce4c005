-- ===== src/Tests.antt =====
pub mod Groups
mod Vectors
mod Votes
mod Checks
mod Frames
mod Decisions
mod Trees
mod Caches
mod Encodings
mod Buffers
mod Walks
mod Pools
mod Iterations
mod Nodes
