-- ===== src/Mm.antt =====
-- The memory management of kernel/mm.
pub mod Pmm
pub mod Pages
pub mod PmmPages
pub mod Vmm
pub mod Region
