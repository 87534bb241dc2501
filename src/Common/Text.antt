-- ===== src/Common/Text.antt =====
-- `String.prototype.trim`: the characters that ECMAScript counts as white space go from both ends.
use Prim.Native.Nat.{ℕ}
use Prim.Native.Char.{code}
use Prim.Native.String.{String, [], ◌∷◌}
use mathlib.Core.Bool.{Bool, ◌&&◌, ◌||◌}
use text.Mathlib.Text.{◌==◌}
use synch.Common.Tests.{leb, eqb, if◌then◌else◌}

is_white_space : ℕ → Bool
is_white_space c =
    (leb 9 c && leb c 13)
    || eqb c 32
    || eqb c 160
    || eqb c 0x1680
    || (leb 0x2000 c && leb c 0x200a)
    || eqb c 0x2028
    || eqb c 0x2029
    || eqb c 0x202f
    || eqb c 0x205f
    || eqb c 0x3000
    || eqb c 0xfeff

trim_start : String → String
unfolding is_white_space
trim_start [] = []
trim_start (c ∷ s) = if is_white_space (code c) then trim_start s else c ∷ s

trim_end : String → String
unfolding is_white_space
trim_end [] = []
trim_end (c ∷ s) =
    let rest = trim_end s in if is_white_space (code c) && rest == "" then [] else c ∷ rest

unfoldable pub trim : String → String
unfolding trim_start trim_end
trim s = trim_end (trim_start s)
