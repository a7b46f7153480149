-- ===== src/Samples/Patterns.antt =====
-- The pattern engine on the linter's own patterns.
use dyod_ws1718_sprint.Common.{◌≡◌, refl, true, none, some, Option, is_some}
use dyod_ws1718_sprint.Text.{Str, lit, strip, decimal}
use dyod_ws1718_sprint.Regex.{Found, search, match_start, group, sub}
use dyod_ws1718_sprint.Suppress.{nolint_pattern}
use dyod_ws1718_sprint.Include.Line.{include_pattern}
use dyod_ws1718_sprint.Cleanse.{c_comments_pattern, raw_start_pattern}

abbrev group_of : Prim.Native.Nat.ℕ → Option Found → Option Str
group_of n none = none
group_of n (some m) = group n m

nolint_category :
    group_of 2 (search nolint_pattern (lit "int a;  // NOLINT(build/class) x"))
    ≡ some (lit "(build/class)")
unfolding search group lit
nolint_category = refl

nolint_nextline :
    group_of 1 (search nolint_pattern (lit "// NOLINTNEXTLINE")) ≡ some (lit "NEXTLINE")
unfolding search group lit
nolint_nextline = refl

include_name :
    group_of 2 (search include_pattern (lit "#include <vector>  // v")) ≡ some (lit "vector")
unfolding search group lit
include_name = refl

comment_removed :
    sub c_comments_pattern (lit "") (lit "f(a /* b */, c);  /* d */ ") ≡ lit "f(a, c);"
unfolding sub lit c_comments_pattern
comment_removed = refl

raw_delimiter :
    group_of 2 (match_start raw_start_pattern (lit "s = R\"x(abc)x\";")) ≡ some (lit "x")
unfolding match_start group lit
raw_delimiter = refl

lone_brace : is_some (search (lit "{") (lit "f() {")) ≡ true
unfolding search lit
lone_brace = refl

shown : decimal 1729 ≡ lit "1729"
unfolding decimal lit
shown = refl

trimmed : strip (lit "  a b\t ") ≡ lit "a b"
unfolding strip lit
trimmed = refl
