-- ===== src/Trm.antt =====
-- trm816/: the tool that maps the controller of an (X)DNP board into the I/O space.
pub mod Cmdline
pub mod Parse
pub mod Elan
pub mod Sc520
pub mod Setup
