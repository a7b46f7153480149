-- ===== src/Language/References.antt =====
-- `CheckForNonConstReference`. The block that was on top of the stack before the line,
-- `previous_stack_top`, is given to it.
use Prim.Native.Nat.{min}
use dyod_ws1718_sprint.Common.{
  ℕ, zero, suc, ◌+◌, ◌-◌, Bool, true, false, not, ◌&&◌, ◌||◌, Option, none, some, List, [], ◌∷◌,
  ◌++◌, get_or, ltb, if◌then◌else◌,
}
use dyod_ws1718_sprint.Text.{Str, lit, strip, strip_left, contains, rfind_char}
use dyod_ws1718_sprint.Regex.{Found, search, searches, matches, find_all, group_or, sub}
use dyod_ws1718_sprint.Report.{Report, report, Result, ok, ◌>>=◌}
use dyod_ws1718_sprint.Expr.{reverse_close_expression}
use dyod_ws1718_sprint.Nesting.Blocks.{Kind, block, extern_c, class, namespace_, BlockInfo}
use dyod_ws1718_sprint.Language.Functions.{
  is_derived_function, is_out_of_line_method_definition, is_initializer_list,
}

abbrev pub ident_pattern : Str
ident_pattern = lit "[_a-zA-Z]\\w*"

abbrev pub type_pattern : Str
type_pattern =
    lit "(?:const\\s+)?(?:typename\\s+|class\\s+|struct\\s+|union\\s+|enum\\s+)?"
    ++ lit "(?:\\w|\\s*<(?:<(?:<[^<>]*>|[^<>])*>|[^<>])*>|::)+"

abbrev pub ref_param_pattern : Str
ref_param_pattern =
    lit "("
    ++ (type_pattern
        ++ (lit "(?:\\s*(?:\\bconst\\b|[*]))*\\s*&\\s*"
            ++ (ident_pattern ++ lit ")\\s*(?:=[^,()]+)?[,)]")))

abbrev pub const_ref_param_pattern : Str
const_ref_param_pattern =
    lit "(?:.*\\s*\\bconst\\s*&\\s*"
    ++ (ident_pattern
        ++ (lit "|const\\s+" ++ (type_pattern ++ (lit "\\s*&\\s*" ++ (ident_pattern ++ lit ")")))))

abbrev pub ref_stream_param_pattern : Str
ref_stream_param_pattern = lit "(?:.*stream\\s*&\\s*" ++ (ident_pattern ++ lit ")")

-- The first part of a type that is split behind or before `::`, at the end of the line above.
unfoldable pub type_above : Str → Str → Option Found
type_above line above =
    if matches (lit "\\s*::(?:[\\w<>]|::)+\\s*&\\s*\\S") line
    then search (lit "\\b((?:const\\s*)?(?:[\\w<>]|::)+[\\w<>])\\s*$") above
    else if matches (lit "\\s*[a-zA-Z_]([\\w<>]|::)+\\s*&\\s*\\S") line
    then search (lit "\\b((?:const\\s*)?(?:[\\w<>]|::)+::)\\s*$") above
    else none

-- The `n` stripped lines from line `i` on.
unfoldable pub joined_lines : List Str → ℕ → ℕ → Str
joined_lines elided zero i = []
joined_lines elided (suc n) i = strip (get_or elided i []) ++ joined_lines elided n (suc i)

unfoldable pub from_template : List Str → Str → ℕ → Str × ℕ × Option ℕ → Str
unfolding joined_lines
from_template elided line linenum (startline, start, none) = line
from_template elided line linenum (startline, start, some startpos) =
    if ltb start linenum then joined_lines elided (linenum + 1 - start) start else line

-- A template parameter that starts on an earlier line.
unfoldable pub template_above : List Str → Str → ℕ → Result Str
unfolding from_template
template_above elided line linenum = elim (rfind_char line b'>') [
  | none ↦ ok line
  | some endpos ↦ reverse_close_expression elided linenum endpos >>= λ opened.
      ok (from_template elided line linenum opened)
]

-- The line with what belongs to its type from the lines above.
unfoldable pub whole_type : List Str → ℕ → Result Str
unfolding type_above template_above
whole_type elided linenum =
    let line = get_or elided linenum [] in
    if ltb 1 linenum
    then elim (type_above line (get_or elided (linenum - 1) [])) [
      | some m ↦ ok (group_or 1 m ++ strip_left line)
      | none ↦ template_above elided line linenum
    ]
    else ok line

unfoldable pub is_outer_kind : Kind → Bool
is_outer_kind block = false
is_outer_kind extern_c = false
is_outer_kind (class c) = true
is_outer_kind (namespace_ name) = true

-- At top level, in a class or in a namespace.
unfoldable pub may_declare : Option BlockInfo → Bool
unfolding is_outer_kind
may_declare none = true
may_declare (some b) = is_outer_kind b.kind

-- The loop over `n` lines from line `i` up: one that starts with a colon comes before one that
-- ends neither in a comma nor in a parenthesis.
unfoldable pub colon_above : List Str → ℕ → ℕ → Bool
colon_above elided zero i = false
colon_above elided (suc n) i =
    let above = colon_above elided n (i - 1) in
    let line = get_or elided i [] in
    if not (searches (lit "[),]\\s*$") line)
    then false
    else if matches (lit "^\\s*:\\s+\\S") line
    then true
    else above

abbrev pub whitelisted_functions : Str
whitelisted_functions =
    lit "(?:[sS]wap(?:<\\w:+>)?|operator\\s*[<>][<>]|static_assert|COMPILE_ASSERT)\\s*\\("

-- Such a function starts on the line, or on one of the two above where the line has no name.
unfoldable pub is_whitelisted : List Str → Str → ℕ → Bool
is_whitelisted elided line linenum =
    searches whitelisted_functions line
    || (not (searches (lit "\\S+\\([^)]*$") line)
        && ((ltb 0 linenum && searches whitelisted_functions (get_or elided (linenum - 1) []))
            || (ltb 1 linenum && searches whitelisted_functions (get_or elided (linenum - 2) []))))

unfoldable pub parameter_reports : ℕ → List Found → List Report
parameter_reports linenum [] = []
parameter_reports linenum (m ∷ ms) =
    let parameter = group_or 1 m in
    let others = parameter_reports linenum ms in
    if not (matches const_ref_param_pattern parameter)
      && not (matches ref_stream_param_pattern parameter)
    then report linenum (lit "runtime/references") 2 (
        lit "Is this a non-const reference? If so, make const or use a pointer: "
        ++ sub (lit " *<") (lit "<") parameter)
      ∷ others
    else others

-- The guards behind the joining of lines, and the parameters.
unfoldable pub reference_reports : List Str → ℕ → Option BlockInfo → Str → List Report
unfolding may_declare colon_above is_whitelisted parameter_reports
reference_reports elided linenum top line =
    if not (may_declare top)
      || colon_above elided (min (linenum - 1) 9) (linenum - 1)
      || searches (lit "\\\\\\s*$") line
      || is_initializer_list elided linenum
      || is_whitelisted elided line linenum
    then []
    else parameter_reports linenum (find_all ref_param_pattern (sub (lit "{[^}]*}") (lit " ") line))

-- `CheckForNonConstReference`
unfoldable pub check_for_non_const_reference :
    List Str → ℕ → Option BlockInfo → Result (List Report)
unfolding whole_type reference_reports
check_for_non_const_reference elided linenum top =
    if not (contains (get_or elided linenum []) (lit "&"))
    then ok []
    else is_derived_function elided linenum >>= λ derived.
        if derived || is_out_of_line_method_definition elided linenum
        then ok []
        else whole_type elided linenum >>= (λ line. ok (reference_reports elided linenum top line))
