-- ===== src/Node.antt =====
-- What the node's service and command line share: the effects that they have on the world, and the
-- parts of Substrate that they call.
pub mod Trace
pub mod Host
pub mod Follows
pub mod Completes
