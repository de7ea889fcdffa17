-- ===== src/Tests.antt =====
-- Runs of the definitions at concrete inputs, and the theorems at them, for each part of the code.
mod Str
mod Kdebug
mod Console
mod Format
mod Paging
mod Boot
mod Info
mod Monitor
mod Readline
mod Cpu
mod Kernel
mod Prompt
mod Loader
