-- ===== src/Ufs.antt =====
-- The in-memory file system of src/fs.
pub mod State
pub mod Blocks
pub mod Files
pub mod Calls
pub mod Program
pub mod Tests
pub mod Spec
