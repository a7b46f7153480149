-- ===== src/Nesting/Blocks.antt =====
-- `_BlockInfo` and its subclasses: what is kept for an open block, and the checks at its ends.
use dyod_ws1718_sprint.Common.{
  ℕ, suc, ◌+◌, ◌-◌, Bool, true, false, not, ◌&&◌, ◌||◌, Option, none, some, List, [], ◌∷◌, ◌++◌,
  reverse, length, take, drop, get_or, ltb, ◌==◌, if◌then◌else◌,
}
use dyod_ws1718_sprint.Text.{Str, lit, str_eq, count, is_empty}
use dyod_ws1718_sprint.Regex.{Found, search, searches, match_start, matches, group_or, escape}
use dyod_ws1718_sprint.Report.{Report, report}
use dyod_ws1718_sprint.Checks.Lines.{get_indent_level}

-- `_NO_ASM` and so on
pub data Asm : Type 0 where
  no_asm inside_asm end_asm block_asm : Asm

pub record ClassInfo : Type 0 where
  pub name : Str
  pub is_derived : Bool
  pub access : Str
  pub is_struct : Bool
  pub class_indent : ℕ
  pub last_line : ℕ

-- The class of the object, with the fields of the subclass.
pub data Kind : Type 0 where
  block extern_c : Kind
  class : ClassInfo → Kind
  namespace_ : Str → Kind

-- `open_parentheses`, which can be negative, is `opened - closed`.
pub record BlockInfo : Type 0 where
  pub starting_linenum : ℕ
  pub seen_open_brace : Bool
  pub opened : ℕ
  pub closed : ℕ
  pub inline_asm : Asm
  pub check_namespace_indentation : Bool
  pub kind : Kind

unfoldable pub new_block : ℕ → Bool → Bool → Kind → BlockInfo
new_block linenum seen_open_brace indentation kind = record {
  starting_linenum = linenum;
  seen_open_brace = seen_open_brace;
  opened = 0;
  closed = 0;
  inline_asm = no_asm;
  check_namespace_indentation = indentation;
  kind = kind;
}

-- The search for the end of a class: the first line behind which as many braces are closed as are
-- open; 0 where there is none.
unfoldable pub find_last_line : ℕ → ℕ → ℕ → List Str → ℕ
find_last_line i up down [] = 0
find_last_line i up down (line ∷ lines) =
    let ups = up + count line (lit "{") in
    let downs = down + count line (lit "}") in
    let later = find_last_line (suc i) ups downs lines in if ups == downs then i else later

-- `_ClassInfo.__init__`, on `clean_lines.raw_lines` and `clean_lines.elided`
unfoldable pub new_class : Str → Str → List Str → List Str → ℕ → BlockInfo
unfolding new_block find_last_line
new_class name class_or_struct raw_lines elided linenum =
    let is_struct = str_eq class_or_struct (lit "struct") in
    new_block linenum false true (
      class (record {
        name = name;
        is_derived = false;
        access = if is_struct then lit "public" else lit "private";
        is_struct = is_struct;
        class_indent = get_indent_level (get_or raw_lines linenum []);
        last_line = find_last_line linenum 0 0 (drop linenum elided);
      }))

-- `_NamespaceInfo.__init__`, where a name that is missing is empty
unfoldable pub new_namespace : Str → ℕ → BlockInfo
unfolding new_block
new_namespace name linenum = new_block linenum false true (namespace_ name)

-- `CheckBegin`
unfoldable pub check_begin : Str → BlockInfo → BlockInfo
check_begin line b = elim b.kind [
  | class c ↦
      if searches (lit "(^|[^:]):($|[^:])") line
      then record b { kind = class (record c { is_derived = true }) }
      else b
  | _ ↦ b
]

abbrev pub disallow_pattern : Str → Str
disallow_pattern name =
    lit "\\b(DISALLOW_COPY_AND_ASSIGN|DISALLOW_IMPLICIT_CONSTRUCTORS)\\(" ++ name ++ lit "\\)"

pub not_last : ℕ → Found → Report
not_last i m =
    report i (lit "readability/constructors") 3
      (group_or 1 m ++ lit " should be the last thing in the class")

-- The lines of the class, the last one first, down from line `i`: a DISALLOW macro with something
-- but white space behind it.
unfoldable pub disallow_reports : Str → ℕ → Bool → List Str → List Report
disallow_reports name i seen_last [] = []
disallow_reports name i seen_last (line ∷ lines) =
    let later =
      disallow_reports name (i - 1) (seen_last || not (matches (lit "^\\s*$") line)) lines in
    elim (search (disallow_pattern name) line) [
      | some m ↦ if seen_last then not_last i m ∷ [] else []
      | none ↦ later
    ]

pub parent_of : ClassInfo → Str
parent_of c = if c.is_struct then lit "struct " ++ c.name else lit "class " ++ c.name

unfoldable pub brace_reports : ClassInfo → ℕ → Option Found → List Report
brace_reports c linenum none = []
brace_reports c linenum (some indent) =
    if length (group_or 1 indent) == c.class_indent
    then []
    else report linenum (lit "whitespace/indent") 3
        (lit "Closing brace should be aligned with beginning of " ++ parent_of c)
      ∷ []

unfoldable pub check_class_end : ClassInfo → ℕ → List Str → ℕ → List Report
unfolding disallow_reports brace_reports
check_class_end c start elided linenum =
    disallow_reports c.name (linenum - 1) false
      (reverse (take (linenum - 1 - start) (drop (start + 1) elided)))
    ++ brace_reports c linenum (match_start (lit "^( *)\\}") (get_or elided linenum []))

abbrev pub anonymous_pattern : Str
anonymous_pattern = lit "^\\s*}.*\\b(namespace anonymous|anonymous namespace)\\b"

-- The comment at the end of a namespace, on a raw line.
unfoldable pub check_namespace_end : Str → ℕ → Str → ℕ → List Report
check_namespace_end name start line linenum =
    if ltb (linenum - start) 10 && not (matches (lit "^\\s*};*\\s*(//|/\\*).*\\bnamespace\\b") line)
    then []
    else if not (is_empty name)
    then (if matches
          (lit "^\\s*};*\\s*(//|/\\*).*\\bnamespace\\s+" ++ escape name ++ lit "[\\*/\\.\\\\\\s]*$")
          line
        then []
        else report linenum (lit "readability/namespace") 5
            (lit "Namespace should be terminated with \"// namespace " ++ name ++ lit "\"")
          ∷ [])
    else if matches (lit "^\\s*};*\\s*(//|/\\*).*\\bnamespace[\\*/\\.\\\\\\s]*$") line
    then []
    else if matches anonymous_pattern line
    then report linenum (lit "readability/namespace") 5 (
        lit "Anonymous namespace should be terminated with \"// namespace\""
        ++ lit " or \"// anonymous namespace\"")
      ∷ []
    else report linenum (lit "readability/namespace") 5
        (lit "Anonymous namespace should be terminated with \"// namespace\"")
      ∷ []

-- `CheckEnd`, on `clean_lines.raw_lines` and `clean_lines.elided`
unfoldable pub check_end : List Str → List Str → ℕ → BlockInfo → List Report
unfolding check_class_end check_namespace_end
check_end raw_lines elided linenum b = elim b.kind [
  | class c ↦ check_class_end c b.starting_linenum elided linenum
  | namespace_ name ↦
      check_namespace_end name b.starting_linenum (get_or raw_lines linenum []) linenum
  | _ ↦ []
]
