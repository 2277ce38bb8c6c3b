-- ===== src/Shell.antt =====
-- shell: the parser of command lines (shell/parsing.c, utils.c, createcmd.c) and the processes that a
-- command becomes (shell/exec.c).
pub mod Buffer
pub mod Parser
pub mod Ends
pub mod Pipeline
pub mod Words
pub mod Exec
pub mod Run
pub mod Builtin
mod Tests
