-- ===== src/Util/Stmt.antt =====
-- src/mmb/stmt.rs: the declarations of an mmb file.
use second_opinion.Prelude.{ℕ, Bool, true, false, ◌==◌, if◌then◌else◌, Option, none, some, bit_or}

abbrev pub stmt_axiom : ℕ
stmt_axiom = 0x02

abbrev pub stmt_sort : ℕ
stmt_sort = 0x04

abbrev pub stmt_def : ℕ
stmt_def = 0x05

abbrev pub stmt_thm : ℕ
stmt_thm = 0x06

abbrev pub stmt_local : ℕ
stmt_local = 0x08

abbrev pub stmt_local_def : ℕ
stmt_local_def = bit_or stmt_local stmt_def

abbrev pub stmt_local_thm : ℕ
stmt_local_thm = bit_or stmt_local stmt_thm

-- The number is absent until `DeclIter` gives it.
pub data StmtCmd : Type 0 where
  sort_stmt : Option ℕ → StmtCmd
  axiom_stmt : Option ℕ → StmtCmd
  termdef : Option ℕ → Bool → StmtCmd
  thm : Option ℕ → Bool → StmtCmd

unfoldable pub is_local : StmtCmd → Bool
is_local (termdef num local) = local
is_local (thm num local) = local
is_local (sort_stmt num) = false
is_local (axiom_stmt num) = false

-- `StmtCmd::try_from(cmd).ok()`
unfoldable pub try_stmt : ℕ → Option StmtCmd
try_stmt cmd =
    if cmd == stmt_sort
    then some (sort_stmt none)
    else if cmd == stmt_axiom
    then some (axiom_stmt none)
    else if cmd == stmt_def
    then some (termdef none false)
    else if cmd == stmt_local_def
    then some (termdef none true)
    else if cmd == stmt_thm
    then some (thm none false)
    else if cmd == stmt_local_thm
    then some (thm none true)
    else none
