-- ===== src/Nesting/Heads.antt =====
-- `NestingState.Update`: parentheses, namespaces, classes and access keywords.
use dyod_ws1718_sprint.Common.{
  ℕ, zero, suc, ◌+◌, Bool, true, not, ◌&&◌, Option, none, some, List, [], ◌∷◌, ◌++◌, length, drop,
  ◌==◌, if◌then◌else◌,
}
use dyod_ws1718_sprint.Text.{Str, lit, count, find}
use dyod_ws1718_sprint.Regex.{Found, match_start, matches, group_or}
use dyod_ws1718_sprint.Report.{Report, report, Result, ok, ◌>>=◌}
use dyod_ws1718_sprint.Nesting.Blocks.{
  Asm, no_asm, inside_asm, end_asm, block_asm, ClassInfo, class, BlockInfo, new_class,
  new_namespace, check_begin, parent_of,
}
use dyod_ws1718_sprint.Nesting.Template.{in_template_argument_list}

abbrev pub asm_pattern : Str
asm_pattern = lit "^\\s*(?:asm|_asm|__asm|__asm__)(?:\\s+(volatile|__volatile__))?\\s*[{(]"

-- The assembly state after a line with as many parentheses; `b` has them counted already.
unfoldable pub next_asm : Str → ℕ → ℕ → BlockInfo → Asm → Asm
next_asm line up down b inside_asm = if b.opened == b.closed then end_asm else inside_asm
next_asm line up down b block_asm = block_asm
next_asm line up down b asm =
    if not (up == down) && b.opened == suc b.closed && matches asm_pattern line
    then inside_asm
    else no_asm

-- The parentheses of a line, on the innermost block.
unfoldable pub count_parentheses : Str → List BlockInfo → List BlockInfo
unfolding next_asm
count_parentheses line [] = []
count_parentheses line (b ∷ stack) =
    let up = count line (lit "(") in
    let down = count line (lit ")") in
    let counted = record b { opened = b.opened + up; closed = b.closed + down } in
    record counted { inline_asm = next_asm line up down counted b.inline_asm } ∷ stack

abbrev pub namespace_pattern : Str
namespace_pattern = lit "^\\s*namespace\\b\\s*([:\\w]+)?(.*)$"

-- What is left of the line behind a namespace, and the namespace.
unfoldable pub enter_namespace : ℕ → Found → Str × BlockInfo
enter_namespace linenum m =
    let opening = new_namespace (group_or 1 m) linenum in
    elim (find (group_or 2 m) (lit "{")) [
      | none ↦ (group_or 2 m, opening)
      | some i ↦ (drop (i + 1) (group_or 2 m), record opening { seen_open_brace = true })
    ]

-- The loop over the namespaces at the start of the line; each takes its keyword from the line.
unfoldable pub consume_namespaces : ℕ → ℕ → Str → List BlockInfo → Str × List BlockInfo
unfolding enter_namespace
consume_namespaces zero linenum line stack = (line, stack)
consume_namespaces (suc fuel) linenum line stack = elim (match_start namespace_pattern line) [
  | none ↦ (line, stack)
  | some m ↦
      consume_namespaces fuel linenum (enter_namespace linenum m).0
        ((enter_namespace linenum m).1 ∷ stack)
]

abbrev pub class_pattern : Str
class_pattern =
    lit "^(\\s*(?:template\\s*<[\\w\\s<>,:]*>\\s*)?"
    ++ lit "(class|struct)\\s+(?:[A-Z_]+\\s+)*(\\w+(?:::\\w+)*))"
    ++ lit "(.*)$"

-- No parenthesis is open in the innermost block.
unfoldable pub is_balanced : List BlockInfo → Bool
is_balanced [] = true
is_balanced (b ∷ stack) = b.opened == b.closed

unfoldable pub enter_class :
    List Str → List Str → ℕ → Str → List BlockInfo → Option Found → Result (Str × List BlockInfo)
enter_class raw_lines elided linenum line stack none = ok (line, stack)
enter_class raw_lines elided linenum line stack (some m) =
    if not (is_balanced stack)
    then ok (line, stack)
    else in_template_argument_list elided linenum (length (group_or 1 m)) >>= λ inside. ok (
        if inside then (line, stack) else (
          group_or 4 m,
          new_class (group_or 3 m) (group_or 2 m) raw_lines elided linenum ∷ stack,
        ))

unfoldable pub seen_open_brace : List BlockInfo → Bool
seen_open_brace [] = true
seen_open_brace (b ∷ stack) = b.seen_open_brace

unfoldable pub begin_block : Str → List BlockInfo → List BlockInfo
begin_block line [] = []
begin_block line (b ∷ stack) = (if b.seen_open_brace then b else check_begin line b) ∷ stack

abbrev pub access_pattern : Str
access_pattern =
    lit "^(.*)\\b(public|private|protected|signals)(\\s+(?:slots\\s*)?)?" ++ lit ":(?:[^:]|$)"

unfoldable pub access_reports : ℕ → ClassInfo → Found → List Report
access_reports linenum c m =
    if not (length (group_or 1 m) == c.class_indent + 1) && matches (lit "^\\s*$") (group_or 1 m)
    then report linenum (lit "whitespace/indent") 3
        (group_or 2 m ++ group_or 3 m ++ lit ": should be indented +1 space inside " ++ parent_of c)
      ∷ []
    else []

unfoldable pub set_access :
    ℕ → ClassInfo → BlockInfo → List BlockInfo → Option Found → List BlockInfo × List Report
unfolding access_reports
set_access linenum c b stack none = (b ∷ stack, [])
set_access linenum c b stack (some m) = (
  record b { kind = class (record c { access = group_or 2 m }) } ∷ stack,
  access_reports linenum c m,
)

-- The access keyword of a line in a class.
unfoldable pub update_access : ℕ → Str → List BlockInfo → List BlockInfo × List Report
unfolding set_access
update_access linenum line [] = ([], [])
update_access linenum line (b ∷ stack) = elim b.kind [
  | class c ↦ set_access linenum c b stack (match_start access_pattern line)
  | _ ↦ (b ∷ stack, [])
]
