-- ===== src/Readers.antt =====
-- java/space/yasha/rcmonitor: the readers, through which Java gets bytes for the bridge, and the chain
-- that chooses among them. Android, its USB service and its streams are parameters.
pub mod Input
pub mod Usb
pub mod Duss
pub mod Local
pub mod Chain
