-- ===== src/Kdebug/Info.antt =====
-- kern/kdebug.c: debuginfo_eip. The symbol table has `n` entries, and its string table the
-- `strsize` bytes of `strs`. The ends of a range are kept as one more than the `int`s of the code,
-- as the search returns them.
pub mod File
pub mod Line
use jos_ece.Prelude.{
  ℕ, zero, suc, ◌+◌, ◌-◌, ◌%◌, ◌^◌, Bool, not, ◌&&◌, ◌||◌, List, Option, none, some, ltb, leb, ◌==◌,
  if◌then◌else◌,
}
use jos_ece.Prelude.Int.{ℤ, pos, negsuc}
use jos_ece.Memory.{Memory}
use jos_ece.Str.Scan.{strfind}
use jos_ece.Mmu.Layout.{ulim}
use jos_ece.Kdebug.Stab.{Stabs, n_fun, n_sline, n_so, n_sol, n_psym}
use jos_ece.Kdebug.Search.{Region, stab_binsearch}

-- A name is "<unknown>" or stands at an offset of the string table.
pub data Name : Type 0 where
  unknown : Name
  at : ℕ → Name

pub record Eipdebuginfo : Type 0 where
  pub eip_file : Name
  pub eip_line : ℕ
  pub eip_fn_name : Name
  pub eip_fn_namelen : ℕ
  pub eip_fn_addr : ℕ
  pub eip_fn_narg : ℕ

-- The result with `*info`, a panic, a read of `stabs[-1]`, or the end of the fuel.
pub data Looked : Type 0 where
  looked : ℤ → Eipdebuginfo → Looked
  panic : Looked
  outside : Looked
  no_fuel : Looked

abbrev pub initial : ℕ → Eipdebuginfo
initial addr = record {
  eip_file = unknown;
  eip_line = 0;
  eip_fn_name = unknown;
  eip_fn_namelen = 9;
  eip_fn_addr = addr;
  eip_fn_narg = 0;
}

-- `stabs[i].n_strx < stabstr_end - stabstr`, or what the name was.
name_at : Stabs → ℕ → ℕ → Name → Name
name_at stabs strsize i old = if ltb (stabs i).n_strx strsize then at (stabs i).n_strx else old

-- `strfind(name, ':') - name`; "<unknown>" has no colon and nine characters.
name_length : ℕ → Memory → Name → Option ℕ
name_length f strs unknown = some 9
name_length f strs (at p) = elim (strfind f strs p b':') [ none ↦ none | some q ↦ some (q - p) ]

-- `while (lline >= lfile && ...) lline--`, from `lline = k - 1`; `none` is `lline < lfile`.
source_stab : Stabs → ℕ → ℕ → Option ℕ
source_stab stabs lfile zero = none
source_stab stabs lfile (suc k) =
    let rest = source_stab stabs lfile k in
    let type = (stabs k).n_type in
    if ltb k lfile
    then none
    else if not (type == n_sol) && (not (type == n_so) || ((stabs k).n_value == 0))
    then rest
    else some k

-- `lline < rfun && stabs[lline].n_type == N_PSYM`, for `k` entries at most.
count_args : Stabs → ℕ → ℕ → ℕ
count_args stabs lline zero = 0
count_args stabs lline (suc k) =
    let rest = count_args stabs (lline + 1) k in
    if (stabs lline).n_type == n_psym then suc rest else 0

-- From the search for the line number on. `lfile` is the file's entry, `fun` the range of the
-- function, and `line` that of the line number.
finish_line : Stabs → ℕ → ℕ → Region → Region → Eipdebuginfo → Looked
unfolding name_at source_stab count_args
finish_line stabs strsize lfile fun line info =
    let named = record info { eip_line = (stabs (line.left1 - 1)).n_desc } in
    let filed = elim (source_stab stabs lfile line.left1) as (λ x. Eipdebuginfo) [
      | none ↦ named
      | some i ↦ record named { eip_file = name_at stabs strsize i unknown }
    ] in
    let counted =
      if ltb fun.left1 fun.right1
      then count_args stabs fun.left1 (fun.right1 - 1 - fun.left1)
      else 0 in
    if ltb line.right1 line.left1
    then looked (negsuc 0) info
    else if line.left1 == 0
    then outside
    else looked (pos 0) (record filed { eip_fn_narg = counted })

-- The search for the line number in [lline, rline], once the function is known.
find_line : ℕ → Stabs → Memory → ℕ → ℕ → Region → Region → ℕ → Eipdebuginfo → Looked
unfolding name_length finish_line
find_line f stabs strs strsize lfile fun range addr info =
    elim (name_length f strs info.eip_fn_name) [
      | none ↦ no_fuel
      | some len ↦ elim (stab_binsearch f stabs (range.left1 - 1) range.right1 n_sline addr) [
        | none ↦ no_fuel
        | some line ↦
            finish_line stabs strsize lfile fun line (record info { eip_fn_namelen = len })
      ]
    ]

-- The search for the function in the file's range.
find_function : ℕ → Stabs → Memory → ℕ → Region → ℕ → Looked
unfolding find_line
find_function f stabs strs strsize file addr =
    elim (stab_binsearch f stabs (file.left1 - 1) file.right1 n_fun addr) [
      | none ↦ no_fuel
      | some fun ↦
          let lfun = fun.left1 - 1 in
          let found = record (initial addr) {
            eip_fn_name = name_at stabs strsize lfun unknown;
            eip_fn_addr = (stabs lfun).n_value;
          } in
          if leb fun.left1 fun.right1
          then find_line f stabs strs strsize (file.left1 - 1) fun fun
              ((addr + 2 ^ 32 - (stabs lfun).n_value) % 2 ^ 32) found
          else find_line f stabs strs strsize (file.left1 - 1) fun file addr (initial addr)
    ]

unfoldable pub debuginfo_eip : ℕ → Stabs → ℕ → Memory → ℕ → ℕ → Looked
unfolding find_function
debuginfo_eip f stabs n strs strsize addr =
    if ltb addr ulim
    then panic
    else if strsize == 0 || not (strs (strsize - 1) == 0)
    then looked (negsuc 0) (initial addr)
    else elim (stab_binsearch f stabs 0 n n_so addr) [
      | none ↦ no_fuel
      | some file ↦
          if file.left1 == 1
          then looked (negsuc 0) (initial addr)
          else if file.left1 == 0
          then outside
          else find_function f stabs strs strsize file addr
    ]
