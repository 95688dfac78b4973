-- ===== src/Ext2.antt =====
-- The ext2 file system: ext2/ext2.c and the headers in include/ext2.
pub mod Bitmap
