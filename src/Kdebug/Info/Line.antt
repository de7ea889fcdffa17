-- ===== src/Kdebug/Info/Line.antt =====
-- kern/kdebug.c: debuginfo_eip where the file, the function and the line are found.
use jos_ece.Prelude.{
  ℕ, ◌+◌, ◌-◌, ◌*◌, ◌%◌, ◌^◌, ◌≤◌, ◌<◌, ◌≡◌, ◌∙◌, ◌≢◌, ap, List, [], ◌∷◌, ◌++◌, length, refl, sym,
  subst, true, false, arith, ltb, leb, ◌==◌, Option-cases, inl, inr, if◌then◌else◌, some,
}
use jos_ece.Prelude.Int.{pos}
use jos_ece.Memory.{Memory, StrAt}
use jos_ece.Str.Scan.{index_of, strfind-StrAt}
use jos_ece.Kdebug.Stab.{Stabs, n_so, n_fun, n_sline}
use jos_ece.Kdebug.Search.{Region, stab_binsearch}
use jos_ece.Kdebug.Search.Inv.{Searchable}
use jos_ece.Kdebug.Search.Found.{Brackets}
use jos_ece.Kdebug.Search.Unique.{stab_binsearch_bracket}
use jos_ece.Mmu.Layout.{ulim}
use jos_ece.Kdebug.Info.{
  at, unknown, Eipdebuginfo, Looked, looked, initial, name_at, name_length, finish_line, find_line,
  source_stab, count_args, find_function, debuginfo_eip,
}

-- No colon is among the characters.
abbrev pub NoColon : List ℕ → Type 0
NoColon [] = Unit
NoColon (c ∷ cs) = (c ≢ b':') × NoColon cs

-- Nothing, or a colon first.
abbrev pub AtColon : List ℕ → Type 0
AtColon [] = Unit
AtColon (c ∷ cs) = c ≡ b':'

index_of-NoColon :
    (name rest : List ℕ) → NoColon name → AtColon rest → index_of b':' (name ++ rest) ≡ length name
unfolding index_of
index_of-NoColon [] [] h colon = refl
index_of-NoColon [] (c ∷ cs) h colon = ground arith
index_of-NoColon (c ∷ cs) rest (ne, h) colon = ground (arith, index_of-NoColon cs rest h colon)

-- What `strfind` makes of a name in the string table.
name_length-NoColon :
    (f : ℕ) (strs : Memory) (p : ℕ) (name rest : List ℕ)
    → StrAt strs p (name ++ rest)
    → NoColon name
    → AtColon rest
    → length (name ++ rest) < f
    → name_length f strs (at p) ≡ some (length name)
unfolding name_length
name_length-NoColon f strs p name rest str h colon long =
    rw (name_length, strfind-StrAt f strs p b':' (name ++ rest) str long)
      (ap some (omega (arith, index_of-NoColon name rest h colon)))

-- What is told of the function and of the line.
pub record Tells (fn_name fn_namelen fn_addr line : ℕ) (r : Looked) : Type 0 where
  pub info : Eipdebuginfo
  pub found : r ≡ looked (pos 0) info
  pub fn_is : info.eip_fn_name ≡ at fn_name
  pub namelen_is : info.eip_fn_namelen ≡ fn_namelen
  pub addr_is : info.eip_fn_addr ≡ fn_addr
  pub line_is : info.eip_line ≡ line

finish_line-Tells :
    (stabs : Stabs) (strsize lfile : ℕ) (fun : Region) (kl el : ℕ) (info : Eipdebuginfo) (name : ℕ)
    → kl < el
    → info.eip_fn_name ≡ at name
    → Tells name info.eip_fn_namelen info.eip_fn_addr
        (stabs kl).n_desc
        (finish_line stabs strsize lfile fun (record { left1 = kl + 1; right1 = el }) info)
unfolding finish_line
finish_line-Tells stabs strsize lfile fun kl el info name lt named =
    let some_line : ltb el (kl + 1) ≡ false = ground arith in
    let inside : (kl + 1 == 0) ≡ false = ground arith in
    let place : kl + 1 - 1 ≡ kl = omega arith in
    let counted : ℕ =
      if ltb fun.left1 fun.right1
      then count_args stabs fun.left1 (fun.right1 - 1 - fun.left1)
      else 0 in
    elim (Option-cases (source_stab stabs lfile (kl + 1))) [
      | inl none_found ↦ record {
        info = record info { eip_line = (stabs kl).n_desc; eip_fn_narg = counted };
        found = rw (some_line, inside, none_found, place) refl;
        fn_is = named;
        namelen_is = refl;
        addr_is = refl;
        line_is = refl;
      }
      | inr (i, source) ↦ record {
        info = record info {
          eip_file = name_at stabs strsize i unknown;
          eip_line = (stabs kl).n_desc;
          eip_fn_narg = counted;
        };
        found = rw (some_line, inside, source, place) refl;
        fn_is = named;
        namelen_is = refl;
        addr_is = refl;
        line_is = refl;
      }
    ]

find_line_ran :
    (f : ℕ) (stabs : Stabs) (strs : Memory) (strsize lfile : ℕ) (fun range : Region) (addr : ℕ)
    → (info : Eipdebuginfo) (len : ℕ) (line : Region)
    → name_length f strs info.eip_fn_name ≡ some len
    → stab_binsearch f stabs (range.left1 - 1) range.right1 n_sline addr ≡ some line
    → find_line f stabs strs strsize lfile fun range addr info
      ≡ finish_line stabs strsize lfile fun line (record info { eip_fn_namelen = len })
unfolding find_line
find_line_ran f stabs strs strsize lfile fun range addr info len line e ran =
    rw (find_line, e, ran) refl

-- The name of the function at an entry, and its address.
abbrev function_info : Stabs → ℕ → ℕ → Eipdebuginfo
function_info stabs addr kfun = record (initial addr) {
  eip_fn_name = at (stabs kfun).n_strx;
  eip_fn_addr = (stabs kfun).n_value;
}

find_function_ran :
    (f : ℕ) (stabs : Stabs) (strs : Memory) (strsize kfile efile kfun efun addr : ℕ)
    → kfun < efun
    → (stabs kfun).n_strx < strsize
    → stab_binsearch f stabs kfile efile n_fun addr
      ≡ some (record { left1 = kfun + 1; right1 = efun })
    → find_function f stabs strs strsize (record { left1 = kfile + 1; right1 = efile }) addr
      ≡ find_line f stabs strs strsize kfile
          (record { left1 = kfun + 1; right1 = efun })
          (record { left1 = kfun + 1; right1 = efun })
          ((addr + 2 ^ 32 - (stabs kfun).n_value) % 2 ^ 32)
          (function_info stabs addr kfun)
unfolding find_function name_at
find_function_ran f stabs strs strsize kfile efile kfun efun addr lt small ran =
    let file_at : kfile + 1 - 1 ≡ kfile = omega arith in
    let fun_at : kfun + 1 - 1 ≡ kfun = omega arith in
    let found : leb (kfun + 1) efun ≡ true = ground arith in
    let named : ltb (stabs kfun).n_strx strsize ≡ true = ground arith in
    rw (find_function, file_at, ran, fun_at, found, named, file_at) refl

debuginfo_eip_ran :
    (f : ℕ) (stabs : Stabs) (n : ℕ) (strs : Memory) (strsize addr kfile efile : ℕ)
    → ulim ≤ addr
    → 0 < strsize
    → strs (strsize - 1) ≡ 0
    → 0 < kfile
    → stab_binsearch f stabs 0 n n_so addr ≡ some (record { left1 = kfile + 1; right1 = efile })
    → debuginfo_eip f stabs n strs strsize addr
      ≡ find_function f stabs strs strsize (record { left1 = kfile + 1; right1 = efile }) addr
unfolding debuginfo_eip
debuginfo_eip_ran f stabs n strs strsize addr kfile efile kernel some_names ended later ran =
    let t : ltb addr ulim ≡ false = ground arith in
    let u : (strsize == 0) ≡ false = ground arith in
    let v : (strs (strsize - 1) == 0) ≡ true = ground arith in
    let w : (kfile + 1 == 1) ≡ false = ground arith in
    let x : (kfile + 1 == 0) ≡ false = ground arith in rw (debuginfo_eip, t, u, v, ran, w, x) refl

-- Where the bracket of a kernel address among the N_SO entries begins at an entry other than the
-- first, its bracket among the file's N_FUN entries at `kfun`, and that of the offset in the
-- function among the function's N_SLINE entries at `kline`, `debuginfo_eip` ends, returns 0, and
-- tells where the name of `kfun` stands, how many characters it has before its first colon, or in
-- all if it has none, the function's address, and the line of `kline`. Supposed are a string table
-- that ends in NUL, in which `name` stands as a string with what follows the colon, the three ranges
-- in ascending order with no entry a byte above what is searched for, an address below 2 ^ 32, and
-- fuel for two rounds an entry and two more, and above the length of the string.
pub debuginfo_eip-Tells :
    (f : ℕ) (stabs : Stabs) (n : ℕ) (strs : Memory) (strsize addr : ℕ)
    → (kfile efile kfun efun kline eline : ℕ) (name rest : List ℕ) → ulim ≤ addr
    → addr < 2 ^ 32
    → 0 < strsize
    → strs (strsize - 1) ≡ 0
    → 2 * n + 1 < f
    → Searchable stabs n_so 0 n addr
    → Brackets stabs n_so 0 n addr kfile (record { left1 = kfile + 1; right1 = efile })
    → 0 < kfile
    → Searchable stabs n_fun kfile efile addr
    → Brackets stabs n_fun kfile efile addr kfun (record { left1 = kfun + 1; right1 = efun })
    → Searchable stabs n_sline kfun efun (addr - (stabs kfun).n_value)
    → Brackets stabs n_sline kfun efun
        (addr - (stabs kfun).n_value)
        kline
        (record { left1 = kline + 1; right1 = eline })
    → (stabs kfun).n_strx < strsize
    → StrAt strs (stabs kfun).n_strx (name ++ rest)
    → NoColon name
    → AtColon rest
    → length (name ++ rest) < f
    → Tells
        (stabs kfun).n_strx
        (length name)
        (stabs kfun).n_value
        (stabs kline).n_desc
        (debuginfo_eip f stabs n strs strsize addr)
debuginfo_eip-Tells f stabs n strs strsize addr kfile efile kfun efun kline eline name rest kernel
      word some_names ended fuel files file later funs fun lines line small str none_in at_colon
      long =
    let strx : ℕ = (stabs kfun).n_strx in
    let len : name_length f strs (at strx) ≡ some (length name) =
      name_length-NoColon f strs strx name rest str none_in at_colon long in
    let file_ran : stab_binsearch f stabs 0 n n_so addr
        ≡ some (record { left1 = kfile + 1; right1 = efile }) =
      stab_binsearch_bracket stabs n_so 0 n addr f kfile
        (record { left1 = kfile + 1; right1 = efile }) files (omega arith) file in
    let fun_ran : stab_binsearch f stabs kfile efile n_fun addr
        ≡ some (record { left1 = kfun + 1; right1 = efun }) =
      stab_binsearch_bracket stabs n_fun kfile efile addr f kfun
        (record { left1 = kfun + 1; right1 = efun }) funs (omega (arith, file.to)) fun in
    let offset : (addr + 2 ^ 32 - (stabs kfun).n_value) % 2 ^ 32 ≡ addr - (stabs kfun).n_value =
      omega (arith, fun.holds) in
    let fun_at : kfun + 1 - 1 ≡ kfun = omega arith in
    let line_ran : stab_binsearch f stabs (kfun + 1 - 1) efun n_sline
          ((addr + 2 ^ 32 - (stabs kfun).n_value) % 2 ^ 32)
        ≡ some (record { left1 = kline + 1; right1 = eline }) =
      rw (offset, fun_at)
        (stab_binsearch_bracket stabs n_sline kfun efun (addr - (stabs kfun).n_value) f kline
          (record { left1 = kline + 1; right1 = eline }) lines (omega (arith, file.to, fun.to))
          line) in
    let ran : debuginfo_eip f stabs n strs strsize addr
        ≡ finish_line stabs strsize kfile (record { left1 = kfun + 1; right1 = efun })
            (record { left1 = kline + 1; right1 = eline })
            (record (function_info stabs addr kfun) { eip_fn_namelen = length name }) =
      debuginfo_eip_ran f stabs n strs strsize addr kfile efile kernel some_names ended later
        file_ran
      ∙ find_function_ran f stabs strs strsize kfile efile kfun efun addr fun.before small fun_ran
      ∙ find_line_ran f stabs strs strsize kfile (record { left1 = kfun + 1; right1 = efun })
          (record { left1 = kfun + 1; right1 = efun })
          ((addr + 2 ^ 32 - (stabs kfun).n_value) % 2 ^ 32) (function_info stabs addr kfun)
          (length name) (record { left1 = kline + 1; right1 = eline }) len line_ran in
    subst (Tells (stabs kfun).n_strx (length name) (stabs kfun).n_value (stabs kline).n_desc)
      (sym ran)
      (finish_line-Tells stabs strsize kfile (record { left1 = kfun + 1; right1 = efun }) kline
        eline (record (function_info stabs addr kfun) { eip_fn_namelen = length name })
        (stabs kfun).n_strx line.before refl)
