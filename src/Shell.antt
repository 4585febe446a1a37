-- ===== src/Shell.antt =====
-- The shell of src/shell: the lexer, the parser and the runs of shell.c, its input, and popen.c.
pub mod Input
pub mod OpenMax
pub mod Popen
pub mod Lexer
pub mod Descriptors
pub mod Heap
pub mod Run
pub mod Syntax
pub mod Command
pub mod Parser
pub mod Tests
