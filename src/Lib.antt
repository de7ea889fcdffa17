-- ===== src/Lib.antt =====
-- A verification library for the JOS kernel of this repository: a small x86 kernel with its boot
-- loader, its console, its C library, its debug information and its monitor.
--
-- Parts, and how they interact. The boot loader (boot/main.c) reads the kernel off the disk and
-- enters it; kern/entry.S turns paging on with the tables of kern/entrypgdir.c; the kernel sets up
-- the console and talks through it. kern/printf.c gives the characters that lib/printfmt.c makes of
-- a format to the console; lib/readline.c reads a line from it; kern/kdebug.c looks addresses up in
-- the symbol table. kern/init.c greets and starts the monitor, kern/monitor.c, which reads lines,
-- splits them into words and runs commands, one of which walks the stack with the help of the
-- symbol table; a panic ends in the monitor too. lib/string.c serves them all.
--
-- Files, by the code that they model:
--   Memory          the byte memory and the C strings in it, shared by all
--   Str             lib/string.c: Scan (strlen, strnlen, strchr, strfind, memfind), Compare (strcmp,
--                   strncmp, memcmp), Copy (strcpy, strcat, strncpy, strlcpy), Block (memset,
--                   memmove, memcpy), Number (strtol); their children hold the proofs
--   Format          lib/printfmt.c: Number (printnum), Args (getuint, getint), Text (the %s case),
--                   Print (vprintfmt; its children state it of whole formats), Buffer (vsnprintf,
--                   snprintf)
--   Console         kern/console.c: Ports, Serial, Lpt, Attr (the colours), Screen (the display),
--                   Output (cga_putc and cons_putc), Input (the circular buffer), Keyboard, Machine
--                   (cons_getc, getchar, cons_init); and kern/printf.c: Printf
--   Readline        lib/readline.c: Editing (one character), Session (the whole loop)
--   Kdebug          inc/stab.h and kern/kdebug.c: Stab, Search (stab_binsearch), Info (debuginfo_eip)
--   Monitor         kern/monitor.c and kern/hidden.c: the file itself has the argument parser of
--                   runcmd, Kernel the state that the commands work on and their cprintf, Commands
--                   the commands, Loop runcmd, monitor and the dispatch; the others hold the proofs
--   Start           kern/init.c: i386_init, test_backtrace, _panic, _warn
--   Paging          the paging part of inc/mmu.h, the rounding of inc/types.h, kern/entrypgdir.c
--   Mmu             inc/mmu.h: segment and gate descriptors (Segments, Gates); inc/memlayout.h:
--                   Layout (its constants)
--   Cpu             inc/x86.h: the register instructions, the block transfers (Strings), xchg (Lock)
--   Boot            boot/main.c and inc/elf.h: Disk (a disk that works), Load and Enter (bootmain)
--   Prelude         names of the libraries, Boolean tests, lists, integers, bit operations
--   Tests           runs at concrete inputs
--
-- State and operations. A static variable or a structure is a field of a record with the name that
-- it has in the code, and a function that changes it takes the record and returns it. Words are
-- natural numbers, and where an operation of the code wraps, the remainder is written out; an `int`
-- that the code tests for its sign is a word whose upper half is negative, or a signed integer. The
-- devices are parameters: a record of the port instructions over any type of device state. The
-- commands of the monitor are a small monad over the state of the kernel, which ends in a value, in
-- the panic of debuginfo_eip, or in no result. What the linker and the compiler place is a
-- parameter: the addresses of the kernel's symbols, the symbol table and the frame pointer. The
-- string constants of the code stand from 2 ^ 32 on, outside the memory that the code can write.
--
-- Bounds and fuel. A loop that counts down is a recursion on its counter. A loop whose end depends
-- on memory or on a device takes fuel and returns no result when it runs out; the theorems say how
-- much is enough: one more than the length of a string, two rounds an entry for the search of the
-- symbol table, 64 calls for a 64-bit number, one more than the number of sectors, characters,
-- words, frames or format positions. The loop of monitor and the loop around it never end in the
-- code: they take the number of rounds that are watched. cga_putc and cons_putc call one another,
-- at most two deep. Indices into the symbol table stay below 2 ^ 30.
--
-- Not modelled: the assembly of boot/boot.S and kern/entry.S; the single port instructions of
-- inc/x86.h, which are the parameter that the devices are; the task state structure and the numbers
-- of inc/mmu.h that no code reads; and the programs of user/ and fs/, whose libraries are not in
-- the repository. The formatter's memory and the buffer of vsnprintf do not overlap. The stack that
-- the C code itself runs on is read by mon_backtrace but not written by the model.
pub mod Prelude
pub mod Memory
pub mod Str
pub mod Kdebug
pub mod Console
pub mod Format
pub mod Paging
pub mod Mmu
pub mod Cpu
pub mod Boot
pub mod Readline
pub mod Monitor
pub mod Start
mod Tests
