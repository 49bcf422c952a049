-- ===== src/V9.antt =====
-- src/netflow_handler_v9.c: the table of templates, and the walk over the flowsets of a packet.
pub mod Tables
pub mod Save
pub mod Handle
pub mod Packet
