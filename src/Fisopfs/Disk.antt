-- ===== src/Fisopfs/Disk.antt =====
-- The persistence file: the disk functions of fisopfs/entrada_directorio.c and
-- fisopfs/entrada_archivo.c, and fisopfs_init, fisopfs_flush and fisopfs_destroy of
-- fisopfs/fisopfs.c. The file is the list of the blocks that one fwrite writes and one fread
-- reads; the bytes inside a block are its C struct.
pub mod Write
pub mod Read
pub mod Mount
pub mod Compact
pub mod RoundTrip
