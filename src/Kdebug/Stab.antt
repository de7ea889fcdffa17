-- ===== src/Kdebug/Stab.antt =====
-- inc/stab.h: the entries of the symbol table that the linker places between `__STAB_BEGIN__` and
-- `__STAB_END__`, by index, and the types of entry that kern/kdebug.c asks for.
use jos_ece.Prelude.{ℕ}

pub record Stab : Type 0 where
  pub n_strx : ℕ
  pub n_type : ℕ
  pub n_other : ℕ
  pub n_desc : ℕ
  pub n_value : ℕ

abbrev pub n_fun : ℕ
n_fun = 0x24

abbrev pub n_sline : ℕ
n_sline = 0x44

abbrev pub n_so : ℕ
n_so = 0x64

abbrev pub n_sol : ℕ
n_sol = 0x84

abbrev pub n_psym : ℕ
n_psym = 0xa0

-- The table as the code indexes it.
abbrev pub Stabs : Type 0
Stabs = ℕ → Stab
