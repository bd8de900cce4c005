-- ===== src/Gossip.antt =====
-- gossip: the buffer of events that wait for their parents, and piecewise linear functions.
pub mod Ordering
pub mod Piecefunc
