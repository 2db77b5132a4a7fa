-- ===== src/Util/Decl.antt =====
-- src/util.rs, `DeclIter`: the declaration stream, and the numbers that it gives to declarations.
pub mod Numbers
use second_opinion.Prelude.{
  ℕ, zero, suc, ◌+◌, List, [], ◌∷◌, Option, none, some, Res, ok, hang, fits, ◌>>=◌,
}
use second_opinion.Util.Stmt.{StmtCmd, sort_stmt, axiom_stmt, termdef, thm, try_stmt}
use second_opinion.Util.Cmd.{try_next_cmd}
use second_opinion.Mmb.ProofCmd.{ProofIter}

pub record DeclIter : Type 0 where
  pub mmb : List ℕ
  pub pos : ℕ
  pub next_sort_num : ℕ
  pub next_termdef_num : ℕ
  pub next_assert_num : ℕ

abbrev pub raw_cmd : ℕ → ℕ → Res (ℕ × ℕ)
raw_cmd cmd d = ok (cmd, d)

-- A declaration without its number, its proof, and the position of the next one. `ok none` is the
-- end of the stream: the source answers `None` on the command 0, and on a command that is no
-- declaration.
abbrev pub decl_of : List ℕ → ℕ → Option ((ℕ × ℕ) × ℕ) → Res (Option (StmtCmd × ProofIter × ℕ))
decl_of mmb pos none = ok none
decl_of mmb pos (some ((cmd, d), rest)) = elim (try_stmt cmd) [
  | none ↦ ok none
  | some stmt ↦ ok (some (stmt, record { buf = mmb; pos = rest; ends_at = pos + d }, pos + d))
]

unfoldable pub try_next_decl : List ℕ → ℕ → Res (Option (StmtCmd × ProofIter × ℕ))
unfolding try_next_cmd try_stmt
try_next_decl mmb pos = try_next_cmd raw_cmd mmb pos >>= decl_of mmb pos

-- The counters are a `u8` and two `u32`s, and an overflow is a panic.
unfoldable pub number_stmt : DeclIter → StmtCmd → Res (StmtCmd × DeclIter)
number_stmt it (sort_stmt _) = do
  n ← fits 8 (it.next_sort_num + 1)
  ok (sort_stmt (some it.next_sort_num), record it { next_sort_num = n })
number_stmt it (termdef _ local) = do
  n ← fits 32 (it.next_termdef_num + 1)
  ok (termdef (some it.next_termdef_num) local, record it { next_termdef_num = n })
number_stmt it (axiom_stmt _) = do
  n ← fits 32 (it.next_assert_num + 1)
  ok (axiom_stmt (some it.next_assert_num), record it { next_assert_num = n })
number_stmt it (thm _ local) = do
  n ← fits 32 (it.next_assert_num + 1)
  ok (thm (some it.next_assert_num) local, record it { next_assert_num = n })

abbrev pub next_of :
    DeclIter → Option (StmtCmd × ProofIter × ℕ) → Res (Option ((StmtCmd × ProofIter) × DeclIter))
next_of it none = ok none
next_of it (some (stmt, pr, rest)) = do
  (stmt', it') ← number_stmt it stmt
  ok (some ((stmt', pr), record it' { pos = rest }))

-- `DeclIter::next`
unfoldable pub decl_next : DeclIter → Res (Option ((StmtCmd × ProofIter) × DeclIter))
unfolding try_next_decl number_stmt
decl_next it = try_next_decl it.mmb it.pos >>= next_of it

abbrev pub collect_step :
    (DeclIter → Res (List (StmtCmd × ProofIter)))
    → Option ((StmtCmd × ProofIter) × DeclIter)
    → Res (List (StmtCmd × ProofIter))
collect_step again none = ok []
collect_step again (some (d, it)) = do ds ← again it; ok (d ∷ ds)

-- `declars.collect()`, with fuel.
unfoldable pub collect : ℕ → DeclIter → Res (List (StmtCmd × ProofIter))
unfolding decl_next
collect zero it = hang
collect (suc fuel) it = decl_next it >>= collect_step (collect fuel)
