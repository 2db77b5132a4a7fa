-- ===== src/Tests/Formats.antt =====
-- The command format and the type words at concrete inputs.
use second_opinion.Prelude.{◌∷◌, [], ◌++◌, ◌≡◌, ◌==◌, ◌||◌, ok, ◌>>=◌, arith}
use second_opinion.Util.Ty.{ty, add_dep, depends_on_}
use second_opinion.Util.Ty.Deps.{depends_on_-add_dep}
use second_opinion.Util.Cmd.{parse_cmd}
use second_opinion.Util.Cmd.RoundTrip.{encode_cmd, parse_cmd-encode_cmd}

-- `Dummy` of the sort 7, behind two bytes and before another.
parse_cmd-encode_cmd_example :
    parse_cmd ((0 ∷ 0 ∷ []) ++ (encode_cmd 1 0x13 7 ++ (9 ∷ []))) 2 ≡ ok (0x13, 7, 4)
parse_cmd-encode_cmd_example =
    parse_cmd-encode_cmd 1 0x13 7 (0 ∷ 0 ∷ []) (9 ∷ []) (omega arith) (omega arith) (omega arith)
      (λ e. absurd (omega arith))

-- The variable 2 is added to a type that depends on 1 and 3.
depends_on_-add_dep_example :
    (add_dep (ty 5) 2 >>= λ t'. depends_on_ t' 4)
    ≡ (depends_on_ (ty 5) 4 >>= λ b. ok ((1 == 3) || b))
depends_on_-add_dep_example = depends_on_-add_dep (ty 5) 1 3 (omega arith) (omega arith)
