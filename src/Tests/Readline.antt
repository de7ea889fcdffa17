-- ===== src/Tests/Readline.antt =====
-- lib/readline.c at concrete lines.
use jos_ece.Prelude.{ℕ, ◌≡◌, refl, replicate, length-replicate, arith, set, some}
use jos_ece.Readline.{Line, Edited, buflen, edit}
use jos_ece.Readline.Editing.{IsLine, EditedAs, edit-EditedAs}

abbrev empty : Line
empty = record { i = 0; buf = replicate buflen 0 }

empty-IsLine : IsLine empty
empty-IsLine = record { size = length-replicate {A = ℕ} buflen 0; room = omega arith }

edit-EditedAs_example : EditedAs 0x7F empty (edit 0x7F empty)
edit-EditedAs_example = edit-EditedAs 0x7F empty empty-IsLine

-- DEL is put into an empty line.
del_run : edit 0x7F empty ≡ Edited.more (some 0x7F) (record { i = 1; buf = set empty.buf 0 0x7F })
unfolding edit
del_run = refl
