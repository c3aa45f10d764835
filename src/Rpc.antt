-- ===== src/Rpc.antt =====
-- The remote calls of smap: src/smap/smap_handler_msg.cpp, client/smap_client.cpp and
-- server/turbo_module_smap.cpp. Nothing of its own, only its children.
pub mod Bytes
pub mod Buffer
pub mod Requests
pub mod Tracking
pub mod Replies
pub mod Client
pub mod Server
pub mod Queries
pub mod Settled
mod Tests
