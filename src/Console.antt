-- ===== src/Console.antt =====
-- kern/console.c: the devices of the console, by part.
pub mod Ports
pub mod Serial
pub mod Lpt
pub mod Attr
pub mod Screen
pub mod Output
pub mod Input
pub mod Printf
pub mod Keyboard
pub mod Machine
