-- ===== src/Language/Casts.antt =====
-- `CheckCasts` and `CheckCStyleCast`.
use Prim.Native.Nat.{min}
use dyod_ws1718_sprint.Common.{
  ℕ, zero, suc, ◌+◌, ◌-◌, Bool, true, false, not, ◌&&◌, ◌||◌, Option, none, some, is_some, List, [],
  ◌∷◌, ◌++◌, length, drop, get_elem?, get_or, ltb, ◌==◌, if◌then◌else◌,
}
use dyod_ws1718_sprint.Text.{Str, lit, starts_with, ends_with}
use dyod_ws1718_sprint.Regex.{Found, search, searches, match_start, matches, group, group_or}
use dyod_ws1718_sprint.Report.{Report, report, report_if, Result, ok, raised, index_error, ◌>>=◌}
use dyod_ws1718_sprint.Expr.{close_expression}
use dyod_ws1718_sprint.Language.Functions.{expecting_function_args}

-- The context with the `n` lines from line `i` up before it.
unfoldable pub context_above : List Str → ℕ → ℕ → Str → Str
context_above elided zero i context = context
context_above elided (suc n) i context =
    context_above elided n (i - 1) (get_or elided i [] ++ context)

-- What stands before or behind the parentheses tells that this is no cast.
unfoldable pub is_no_cast : List Str → ℕ → Found → Bool
unfolding context_above
is_no_cast elided linenum m =
    let context = context_above elided (min (linenum - 1) 4) (linenum - 1) m.before in
    matches (lit ".*\\b(?:sizeof|alignof|alignas|[_A-Z][_A-Z0-9]*)\\s*$") m.before
    || matches (lit ".*\\b[_A-Z][_A-Z0-9]*\\s*\\((?:\\([^()]*\\)|[^()])*$") context
    || ends_with context (lit " operator++")
    || ends_with context (lit " operator--")
    || matches (lit "^\\s*(?:;|const\\b|throw\\b|final\\b|override\\b|[=>{),]|->)") m.after

-- `CheckCStyleCast`: the error, if one was emitted. The group 1 of each pattern stands behind its
-- first character, so the context is what stands before the match.
unfoldable pub check_c_style_cast : List Str → ℕ → Str → Str → Option Report
unfolding is_no_cast
check_c_style_cast elided linenum cast_type pattern =
    elim (search pattern (get_or elided linenum [])) [
      | none ↦ none
      | some m ↦
          if is_no_cast elided linenum m
          then none
          else some (
              report linenum (lit "readability/casting") 4 (
                lit "Using C-style cast.  Use "
                ++ (cast_type ++ (lit "<" ++ (group_or 1 m ++ lit ">(...) instead")))))
    ]

unfoldable pub cast_list : Option Report → List Report
cast_list none = []
cast_list (some r) = r ∷ []

abbrev pub conversion_pattern : Str
conversion_pattern =
    lit "(\\bnew\\s+(?:const\\s+)?|\\S<\\s*(?:const\\s+)?)?\\b"
    ++ lit "(int|float|double|bool|char|int32|uint32|int64|uint64)"
    ++ lit "(\\([^)].*)"

-- A conversion by a function call that is neither of the things to ignore.
unfoldable pub is_conversion : Str → Found → Bool
is_conversion line m =
    not (is_some (group 1 m))
    && not (
        matches (lit "\\((?:[^() ]+::\\s*\\*\\s*)?[^() ]+\\)\\s*\\(") (group_or 3 m)
        || starts_with (group_or 3 m) (lit "(*)"))
    && not (matches (lit "\\s*using\\s+\\S+\\s*=\\s*" ++ group_or 2 m) line)
    && not (searches (lit "new\\(\\S+\\)\\s*" ++ group_or 2 m) line)

unfoldable pub conversion_reports : Str → ℕ → Found → List Report
unfolding is_conversion
conversion_reports line linenum m =
    report_if (is_conversion line m) linenum (lit "readability/casting") 4 (
      lit "Using deprecated casting style.  Use static_cast<"
      ++ (group_or 2 m ++ lit ">(...) instead"))

-- What is behind the parentheses of the cast, and the next line, takes something from its result.
unfoldable pub is_dereferenced : List Str → Str × ℕ × Option ℕ → Bool
is_dereferenced elided (line, y2, none) = false
is_dereferenced elided (line, y2, some x2) = matches (lit "\\s*(?:->|\\[)") (
    drop x2 (get_or elided y2 [])
    ++ (if ltb y2 (length elided - 1) then get_or elided (y2 + 1) [] else []))

-- Behind the template arguments of the cast; Python raises an `IndexError` where the line ends.
unfoldable pub behind_cast : List Str → Str × ℕ × Option ℕ → Result Bool
unfolding is_dereferenced
behind_cast elided (line, y1, none) = ok false
behind_cast elided (line, y1, some x1) = elim (get_elem? (get_or elided y1 []) x1) [
  | none ↦ raised index_error
  | some c ↦
      if c == b'('
      then close_expression elided y1 x1 >>= (λ closed. ok (is_dereferenced elided closed))
      else ok false
]

-- `parenthesis_error`
unfoldable pub parenthesis_error : List Str → ℕ → Result Bool
unfolding behind_cast
parenthesis_error elided linenum =
    elim (match_start (lit "^(.*&(?:static|dynamic|down|reinterpret)_cast\\b)<")
      (get_or elided linenum [])) [
        | none ↦ ok false
        | some m ↦ close_expression elided linenum (length (group_or 1 m)) >>= λ closed.
            behind_cast elided closed
      ]

unfoldable pub address_report : ℕ → Bool → Report
address_report linenum true = report linenum (lit "readability/casting") 4 (
    lit "Are you taking an address of something dereferenced "
    ++ lit "from a cast?  Wrapping the dereferenced expression in "
    ++ lit "parentheses will make the binding more obvious")
address_report linenum false = report linenum (lit "runtime/casting") 4 (
    lit "Are you taking an address of a cast?  "
    ++ lit "This is dangerous: could be a temp var.  "
    ++ lit "Take the address before doing the cast, rather than after")

abbrev pub address_pattern : Str
address_pattern =
    lit "(?:[^\\w]&\\(([^)*][^)]*)\\)[\\w(])|"
    ++ lit "(?:[^\\w]&(static|dynamic|down|reinterpret)_cast\\b)"

unfoldable pub address_reports : List Str → ℕ → Result (List Report)
unfolding parenthesis_error address_report
address_reports elided linenum =
    if searches address_pattern (get_or elided linenum [])
    then parenthesis_error elided linenum >>= (λ e. ok (address_report linenum e ∷ []))
    else ok []

abbrev pub arithmetic_pattern : Str
arithmetic_pattern = lit "\\((int|float|double|bool|char|u?int(16|32|64)_t|size_t)\\)"

unfoldable pub static_casts : List Str → ℕ → Bool → List Report
unfolding check_c_style_cast cast_list
static_casts elided linenum expecting_function =
    if expecting_function
    then []
    else cast_list (check_c_style_cast elided linenum (lit "static_cast") arithmetic_pattern)

-- A cast of a string constant, or else one of another pointer.
unfoldable pub pointer_casts : List Str → ℕ → List Report
unfolding check_c_style_cast cast_list
pointer_casts elided linenum =
    elim (check_c_style_cast elided linenum (lit "const_cast")
      (lit "\\((char\\s?\\*+\\s?)\\)\\s*\"")) [
        | some r ↦ r ∷ []
        | none ↦ cast_list (
            check_c_style_cast elided linenum (lit "reinterpret_cast")
              (lit "\\((\\w+\\s?\\*+\\s?)\\)"))
      ]

-- The checks behind that for conversion functions, whose reports come first.
unfoldable pub other_casts : List Str → ℕ → Bool → List Report → Result (List Report)
unfolding static_casts pointer_casts address_reports
other_casts elided linenum expecting_function first = address_reports elided linenum >>= λ last.
    ok (
      first
      ++ (static_casts elided linenum expecting_function ++ (pointer_casts elided linenum ++ last)))

-- `CheckCasts`; brackets behind the conversion end it.
unfoldable pub check_casts : List Str → ℕ → Result (List Report)
unfolding other_casts conversion_reports
check_casts elided linenum =
    let line = get_or elided linenum [] in
    let expecting_function = expecting_function_args elided linenum in
    elim (search conversion_pattern line) [
      | none ↦ other_casts elided linenum expecting_function []
      | some m ↦
          if expecting_function
          then other_casts elided linenum expecting_function []
          else if matches (lit "\\([^()]+\\)\\s*\\[") (group_or 3 m)
          then ok []
          else other_casts elided linenum expecting_function (conversion_reports line linenum m)
    ]
