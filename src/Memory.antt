-- ===== src/Memory.antt =====
-- The kernel's allocators: memory_manager/fixed_size.c, memory_manager/kmalloc.c and
-- memory_manager/buddy.c.
pub mod FixedSize
pub mod Kmalloc
pub mod Buddy
