-- ===== src/Main.antt =====
-- src/main.c: reading the arguments, starting and releasing the parts, and the main loop. The printing is
-- left out.
pub mod Options
pub mod Reading
pub mod Loop
pub mod Ending
pub mod Startup
pub mod Keeping
pub mod Cleaning
pub mod Leaving
pub mod Program
mod Tests
