-- ===== src/Functions.antt =====
-- cpplint.py: `_FunctionState` and `CheckForFunctionLengths`.
pub mod Sizes
use dyod_ws1718_sprint.Common.{
  ℕ, zero, suc, ◌+◌, ◌-◌, ◌*◌, ◌/◌, ◌^◌, Bool, true, false, not, ◌&&◌, ◌||◌, Option, none, some,
  List, [], ◌∷◌, ◌++◌, drop, get_or, last?, ltb, if◌then◌else◌,
}
use dyod_ws1718_sprint.Text.{Str, lit, str_eq, strip_left, decimal, is_white}
use dyod_ws1718_sprint.Regex.{Found, match_start, search, matches, searches, group_or}
use dyod_ws1718_sprint.Report.{Report}

pub record FunctionState : Type 0 where
  pub in_a_function : Bool
  pub lines_in_function : ℕ
  pub current_function : Str

-- `__init__`
unfoldable pub initial : FunctionState
initial = record { in_a_function = false; lines_in_function = 0; current_function = [] }

unfoldable pub begin : Str → FunctionState → FunctionState
begin name s = record { in_a_function = true; lines_in_function = 0; current_function = name }

unfoldable pub count : FunctionState → FunctionState
count s = if s.in_a_function then record s { lines_in_function = s.lines_in_function + 1 } else s

-- `int(math.log(n, 2))` for `n` above 0, as far as 6: the code takes no level above 5. The quotient
-- of the lines by the base is the integer quotient of Python 2.
pub log2_to : ℕ → ℕ → ℕ
log2_to zero n = 0
log2_to (suc rounds) n = let more = suc (log2_to rounds (n / 2)) in if ltb 1 n then more else 0

pub error_level : ℕ → ℕ → ℕ
error_level lines base_trigger =
    let level = log2_to 6 (lines / base_trigger) in if ltb 5 level then 5 else level

abbrev pub normal_trigger : ℕ
normal_trigger = 250

abbrev pub test_trigger : ℕ
test_trigger = 400

pub base_trigger : Str → ℕ
base_trigger name = if matches (lit "T(EST|est)") name then test_trigger else normal_trigger

pub size_report : ℕ → ℕ → Str → ℕ → ℕ → Report
size_report linenum level name lines trigger = record {
  linenum = linenum;
  category = lit "readability/fn_size";
  confidence = level;
  message =
      lit "Small and focused functions are preferred: "
      ++ name
      ++ lit " has "
      ++ decimal lines
      ++ lit " non-comment lines (error triggered by exceeding "
      ++ decimal trigger
      ++ lit " lines).";
}

-- `Check`, at the verbosity of the module's state
unfoldable pub check : ℕ → ℕ → FunctionState → List Report
check verbose_level linenum s =
    let base = base_trigger s.current_function in
    let trigger = base * 2 ^ verbose_level in
    if not s.in_a_function
    then []
    else if ltb trigger s.lines_in_function
    then size_report linenum (error_level s.lines_in_function base) s.current_function
        s.lines_in_function trigger
      ∷ []
    else []

unfoldable pub end : FunctionState → FunctionState
end s = record s { in_a_function = false }

-- `text.split()[-1]`: what stands behind the last white space, with that at the end taken off.
pub last_word : Str → Str → Str
last_word word [] = word
last_word word (c ∷ s) = elim (is_white c) [
  | true ↦ elim (strip_left s) [ [] ↦ word | d ∷ ds ↦ last_word [] s ]
  | false ↦ last_word (word ++ c ∷ []) s
]

-- A line with a name in front of a parenthesis starts a function, unless the name is a macro's.
pub starts_function : Option Found → Bool
starts_function none = false
starts_function (some m) =
    let name = last_word [] (group_or 1 m) in
    str_eq name (lit "TEST") || str_eq name (lit "TEST_F") || not (matches (lit "[A-Z_]+$") name)

-- The name to begin with: `function` and, for a TEST macro, its parameters.
pub with_parameters : Str → Option Found → Str
with_parameters function none = function
with_parameters function (some m) = function ++ group_or 1 m

pub function_name : Str → Str → Str
function_name function joined_line =
    if matches (lit "TEST") function
    then with_parameters function (search (lit "(\\(.*\\))") joined_line)
    else function ++ lit "()"

-- The text in front of the first parenthesis of the line, which has one.
pub called_name : Option Found → Str
called_name none = []
called_name (some m) = group_or 1 m

-- What the search for the body found: a declaration or trivial function, a body, or the end of the
-- file.
pub data Body : Type 0 where
  ignored missing : Body
  opens : Str → Body

pub find_body : Str → Str → List Str → Body
find_body line joined_line [] = missing
find_body line joined_line (start_line ∷ lines) =
    let joined = joined_line ++ lit " " ++ strip_left start_line in
    let rest = find_body line joined lines in
    if searches (lit "(;|})") start_line
    then ignored
    else if searches (lit "{") start_line
    then opens (function_name (called_name (search (lit "((\\w|:)*)\\(") line)) joined)
    else rest

pub no_body : ℕ → Report
no_body linenum = record {
  linenum = linenum;
  category = lit "readability/fn_size";
  confidence = 5;
  message = lit "Lint failed to find start of function body.";
}

pub start_function : ℕ → Body → FunctionState → FunctionState × List Report
start_function linenum ignored s = (s, [])
start_function linenum missing s = (s, no_body linenum ∷ [])
start_function linenum (opens name) s = (begin name s, [])

-- `CheckForFunctionLengths`, on `clean_lines.lines`
unfoldable pub check_for_function_lengths :
    ℕ → List Str → ℕ → FunctionState → FunctionState × List Report
unfolding starts_function start_function find_body begin count check end
check_for_function_lengths verbose_level lines linenum s =
    let line = get_or lines linenum [] in
    if starts_function (match_start (lit "(\\w(\\w|::|\\*|\\&|\\s)*)\\(") line)
    then start_function linenum (find_body line [] (drop linenum lines)) s
    else if matches (lit "^\\}\\s*$") line
    then (end s, check verbose_level linenum s)
    else if not (matches (lit "^\\s*$") line)
    then (count s, [])
    else (s, [])
