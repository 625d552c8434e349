-- ===== src/Fat32/Layout.antt =====
-- include/fs/fat32.hpp: where the fields of the on-disk structures lie. Each structure is packed,
-- so an offset is the sum of the sizes before it.
pub mod Vbr
pub mod DirEntry
