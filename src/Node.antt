-- ===== src/Node.antt =====
-- bins/superquery-node: the node binary.
pub mod Ingest
pub mod Startup
