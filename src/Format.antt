-- ===== src/Format.antt =====
-- lib/printfmt.c: formatted output. A function that calls `putch` returns the list of the
-- characters that it calls it with, in order: the callback returns nothing, so no choice of the
-- code depends on it. The clients of vprintfmt run the list through their own callback.
pub mod Number
pub mod Text
pub mod Args
pub mod Print
pub mod Buffer
