-- ===== src/Common/Text.antt =====
-- Rust's `str`: `trim().is_empty()` over the Unicode White_Space characters, and `format!`.
use Prim.Native.Nat.{ℕ}
use Prim.Native.Char.{code}
use Prim.Native.String.{String}
use mathlib.Core.Bool.{Bool, ◌&&◌, ◌||◌}
use mathlib.Core.List.{List, [], ◌∷◌, reverse}
use bastet_workstation.Common.Branches.{if◌then◌else◌, ◌==◌, leb}
use bastet_workstation.Common.Lists.{is_empty}

abbrev codes : String → List ℕ
codes String.[] = []
codes (String.◌∷◌ c s) = code c ∷ codes s

-- `char::is_whitespace`
is_whitespace : ℕ → Bool
is_whitespace c =
    (leb 0x9 c && leb c 0xd)
    || c == 0x20
    || c == 0x85
    || c == 0xa0
    || c == 0x1680
    || (leb 0x2000 c && leb c 0x200a)
    || c == 0x2028
    || c == 0x2029
    || c == 0x202f
    || c == 0x205f
    || c == 0x3000

drop_whitespace : List ℕ → List ℕ
unfolding is_whitespace
drop_whitespace [] = []
drop_whitespace (c ∷ cs) = let rest = drop_whitespace cs in if is_whitespace c then rest else c ∷ cs

-- `s.trim()`, as the characters that are left
trim : String → List ℕ
unfolding drop_whitespace
trim s = reverse (drop_whitespace (reverse (drop_whitespace (codes s))))

-- `s.trim().is_empty()`
unfoldable pub is_blank : String → Bool
unfolding trim
is_blank s = is_empty (trim s)
