-- ===== src/DataTypes.antt =====
-- The kernel's containers: data_types/dllist.c, data_types/queue.c and data_types/hashtable.c.
pub mod Dllist
pub mod Queue
pub mod Hashtable
