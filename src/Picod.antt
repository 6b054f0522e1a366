-- ===== src/Picod.antt =====
-- pkg/picod: the daemon in a sandbox, its authentication, the paths and file modes that it accepts, the
-- transfer of files and the execution of commands.
pub mod Modes
pub mod Paths
pub mod Jail
pub mod Disk
pub mod Transfers
pub mod Execute
pub mod Auth
