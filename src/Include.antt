-- ===== src/Include.antt =====
-- cpplint.py: `_IncludeState`, the includes seen so far and the section that they have reached.
pub mod Order
pub mod Sorted
pub mod Header
pub mod CppHeaders
pub mod Classify
pub mod Line
pub mod Duplicates
use dyod_ws1718_sprint.Common.{
  ℕ, zero, suc, ◌-◌, Bool, true, false, not, ◌&&◌, ◌||◌, Option, none, some, List, [], ◌∷◌, ◌++◌,
  leb, get_or, last?, ltb, ◌==◌, if◌then◌else◌,
}
use dyod_ws1718_sprint.Text.{Str, lit, str_eq, mem_text, replace, lower}
use dyod_ws1718_sprint.Regex.{matches}

-- `_C_SYS_HEADER` and so on
pub data HeaderType : Type 0 where
  c_sys_header cpp_sys_header likely_my_header possible_my_header other_header : HeaderType

-- `include_list` is never empty: its last list, `include_list[-1]`, stands apart here.
pub record IncludeState : Type 0 where
  pub closed_lists : List (List (Str × ℕ))
  pub last_list : List (Str × ℕ)
  pub section : ℕ
  pub last_header : Str

abbrev pub initial_section : ℕ
initial_section = 0

abbrev pub my_h_section : ℕ
my_h_section = 1

abbrev pub c_section : ℕ
c_section = 2

abbrev pub cpp_section : ℕ
cpp_section = 3

abbrev pub other_h_section : ℕ
other_h_section = 4

-- `__init__`
unfoldable pub initial : IncludeState
initial = record { closed_lists = []; last_list = []; section = initial_section; last_header = [] }

pub find_in_list : Str → List (Str × ℕ) → Option ℕ
find_in_list header [] = none
find_in_list header ((name, line) ∷ fs) =
    if str_eq name header then some line else find_in_list header fs

pub find_in_lists : Str → List (List (Str × ℕ)) → List (Str × ℕ) → Option ℕ
find_in_lists header [] last = find_in_list header last
find_in_lists header (fs ∷ lists) last = elim (find_in_list header fs) [
  | some line ↦ some line
  | none ↦ find_in_lists header lists last
]

-- `FindHeader`: the line of the first occurrence; `none` for -1
unfoldable pub find_header : Str → IncludeState → Option ℕ
unfolding find_in_lists find_in_list
find_header header s = find_in_lists header s.closed_lists s.last_list

-- `ResetSection`
unfoldable pub reset_section : Str → IncludeState → IncludeState
reset_section directive s =
    let cleared = record s { section = initial_section; last_header = [] } in
    if mem_text directive (lit "if" ∷ lit "ifdef" ∷ lit "ifndef" ∷ [])
    then record cleared { closed_lists = s.closed_lists ++ s.last_list ∷ []; last_list = [] }
    else if mem_text directive (lit "else" ∷ lit "elif" ∷ [])
    then record cleared { last_list = [] }
    else cleared

-- `include_list[-1].append((header, line))`
unfoldable pub add_include : Str → ℕ → IncludeState → IncludeState
add_include header line s = record s { last_list = s.last_list ++ (header, line) ∷ [] }

unfoldable pub set_last_header : Str → IncludeState → IncludeState
set_last_header path s = record s { last_header = path }

unfoldable pub canonicalize_alphabetical_order : Str → Str
canonicalize_alphabetical_order path =
    lower (replace (replace path (lit "-inl.h") (lit ".h")) (lit "-") (lit "_"))

-- `s < t` on texts: by the first code point that differs
unfoldable pub text_lt : Str → Str → Bool
text_lt s [] = false
text_lt [] (d ∷ t) = true
text_lt (c ∷ s) (d ∷ t) = ltb c d || (c == d && text_lt s t)

-- `elided[linenum - 1]`, which for line 0 is the last line; `linenum` is a line of the file.
pub line_before : List Str → ℕ → Str
line_before elided zero = elim (last? elided) [ none ↦ [] | some line ↦ line ]
line_before elided (suc n) = get_or elided n []

unfoldable pub is_in_alphabetical_order : List Str → ℕ → Str → IncludeState → Bool
unfolding text_lt line_before
is_in_alphabetical_order elided linenum path s = not (
    text_lt path s.last_header && matches (lit "^\\s*#\\s*include\\b") (line_before elided linenum))

pub type_name : HeaderType → Str
type_name c_sys_header = lit "C system header"
type_name cpp_sys_header = lit "C++ system header"
type_name likely_my_header = lit "header this file implements"
type_name possible_my_header = lit "header this file may implement"
type_name other_header = lit "other header"

pub section_name : ℕ → Str
section_name section =
    if section == initial_section
    then lit "... nothing. (This can't be an error.)"
    else if section == my_h_section
    then lit "a header this file implements"
    else if section == c_section
    then lit "C system header"
    else if section == cpp_section
    then lit "C++ system header"
    else lit "other header"

pub error_message : HeaderType → ℕ → Str
error_message type section = lit "Found " ++ type_name type ++ lit " after " ++ section_name section

-- Entering a section forgets the last header, if it is another section.
pub enter : ℕ → IncludeState → IncludeState × Str
enter section s = (
  record s {
    section = section;
    last_header = if not (s.section == section) then [] else s.last_header;
  },
  [],
)

pub refuse : HeaderType → IncludeState → IncludeState × Str
refuse type s = (record s { last_header = [] }, error_message type s.section)

pub my_section : ℕ → ℕ
my_section section = if leb section my_h_section then my_h_section else other_h_section

-- `CheckNextIncludeOrder`: the message is empty if the header is in order.
unfoldable pub check_next_include_order : HeaderType → IncludeState → IncludeState × Str
unfolding enter refuse my_section
check_next_include_order c_sys_header s =
    if leb s.section c_section then enter c_section s else refuse c_sys_header s
check_next_include_order cpp_sys_header s =
    if leb s.section cpp_section then enter cpp_section s else refuse cpp_sys_header s
check_next_include_order likely_my_header s = enter (my_section s.section) s
check_next_include_order possible_my_header s = enter (my_section s.section) s
check_next_include_order other_header s = enter other_h_section s
