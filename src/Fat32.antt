-- ===== src/Fat32.antt =====
-- fs/fat32/fat32.c and fs/fat32/fat32.h. The children define its functions in the order in which
-- they use one another, with children of their own.
pub mod Volume
pub mod Name
pub mod Directory
pub mod ReadFile
pub mod WriteFile
pub mod MakeDirectory
pub mod Format
mod Tests
