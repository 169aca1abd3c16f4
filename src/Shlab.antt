-- ===== src/Shlab.antt =====
-- shlab-handout/tsh.c: a shell with job control. Its job list, its parser, and its main loop with
-- the signal handlers.
pub mod Jobs
pub mod Parse
pub mod Shell
mod Tests
