-- ===== src/Kdebug.antt =====
-- kern/kdebug.c and inc/stab.h: the symbol table, the search in it, and what is told of an
-- instruction address.
pub mod Stab
pub mod Search
pub mod Info
