-- ===== src/Nesting/Update.antt =====
-- `NestingState.Update`, its loop over the braces, and `CheckCompletedBlocks`.
use dyod_ws1718_sprint.Common.{
  ℕ, zero, suc, true, false, ◌||◌, none, some, List, [], ◌∷◌, ◌++◌, length, get_elem?,
  if◌then◌else◌,
}
use dyod_ws1718_sprint.Text.{Str, lit, str_eq}
use dyod_ws1718_sprint.Regex.{match_start, matches, group_or}
use dyod_ws1718_sprint.Report.{Report, report, Result, ok, raised, index_error, ◌>>=◌}
use dyod_ws1718_sprint.Nesting.Blocks.{
  no_asm, block_asm, block, extern_c, class, namespace_, BlockInfo, new_block, check_end,
}
use dyod_ws1718_sprint.Nesting.Preprocessor.{NestingState, update_preprocessor}
use dyod_ws1718_sprint.Nesting.Heads.{
  asm_pattern, count_parentheses, consume_namespaces, class_pattern, enter_class, begin_block,
  update_access,
}

abbrev pub brace_pattern : Str
brace_pattern = lit "^[^{;)}]*([{;)}])(.*)$"

-- An opening brace: it is that of the innermost block, or opens a new one.
unfoldable pub open_brace : ℕ → Str → List BlockInfo → List BlockInfo
open_brace linenum line stack =
    let opened =
      if matches (lit "^extern\\s*\"[^\"]*\"\\s*\\{") line
      then new_block linenum true false extern_c
      else record (new_block linenum true false block) {
        inline_asm = if matches asm_pattern line then block_asm else no_asm;
      } in
    elim stack [
      | [] ↦ opened ∷ []
      | b ∷ rest ↦
          if b.seen_open_brace
          then opened ∷ b ∷ rest
          else record b { seen_open_brace = true } ∷ rest
    ]

-- A semicolon or closing parenthesis: a block without its brace was a declaration.
unfoldable pub end_declaration : List BlockInfo → List BlockInfo
end_declaration [] = []
end_declaration (b ∷ stack) = if b.seen_open_brace then b ∷ stack else stack

unfoldable pub close_brace : List Str → List Str → ℕ → List BlockInfo → List BlockInfo × List Report
close_brace raw_lines elided linenum [] = ([], [])
close_brace raw_lines elided linenum (b ∷ stack) = (stack, check_end raw_lines elided linenum b)

unfoldable pub brace_step :
    List Str → List Str → ℕ → Str → Str → List BlockInfo → List BlockInfo × List Report
unfolding open_brace end_declaration close_brace
brace_step raw_lines elided linenum line token stack =
    if str_eq token (lit "{")
    then (open_brace linenum line stack, [])
    else if str_eq token (lit ";") || str_eq token (lit ")")
    then (end_declaration stack, [])
    else close_brace raw_lines elided linenum stack

-- The loop over the braces of what is left of the line, which gets shorter by each.
unfoldable pub consume_braces :
    ℕ → List Str → List Str → ℕ → Str → List BlockInfo → List BlockInfo × List Report
unfolding brace_step
consume_braces zero raw_lines elided linenum line stack = (stack, [])
consume_braces (suc fuel) raw_lines elided linenum line stack =
    elim (match_start brace_pattern line) [
      | none ↦ (stack, [])
      | some m ↦
          let (next, reports) = brace_step raw_lines elided linenum line (group_or 1 m) stack in
          let (last, more) = consume_braces fuel raw_lines elided linenum (group_or 2 m) next in
          (last, reports ++ more)
    ]

-- The end of `Update`, behind the class declaration.
unfoldable pub finish_line :
    List Str → List Str → ℕ → Str → Str × List BlockInfo → List BlockInfo × List Report
unfolding begin_block update_access consume_braces
finish_line raw_lines elided linenum whole (line, stack) =
    let (marked, reports) = update_access linenum line (begin_block whole stack) in
    let (last, more) = consume_braces (suc (length line)) raw_lines elided linenum line marked in
    (last, reports ++ more)

unfoldable pub update_line :
    List Str → List Str → ℕ → Str → NestingState → Result (NestingState × List Report)
unfolding count_parentheses consume_namespaces enter_class finish_line
update_line raw_lines elided linenum line s =
    let seen = update_preprocessor line s in
    let (rest, stack) =
      consume_namespaces (suc (length line)) linenum line (count_parentheses line seen.stack) in
    enter_class raw_lines elided linenum rest stack (match_start class_pattern rest) >>= λ entered.
    let (last, reports) = finish_line raw_lines elided linenum line entered in
    ok (record seen { stack = last }, reports)

-- `Update`, on `clean_lines.raw_lines` and `clean_lines.elided`
unfoldable pub update : List Str → List Str → ℕ → NestingState → Result (NestingState × List Report)
unfolding update_line
update raw_lines elided linenum s = elim (get_elem? elided linenum) [
  | none ↦ raised index_error
  | some line ↦ update_line raw_lines elided linenum line s
]

unfoldable pub incomplete_report : BlockInfo → List Report
incomplete_report b = elim b.kind [
  | class c ↦
      report b.starting_linenum (lit "build/class") 5
        (lit "Failed to find complete declaration of class " ++ c.name)
      ∷ []
  | namespace_ name ↦
      report b.starting_linenum (lit "build/namespaces") 5
        (lit "Failed to find complete declaration of namespace " ++ name)
      ∷ []
  | _ ↦ []
]

-- The blocks of the stack from the outermost one on.
unfoldable pub completed_reports : List BlockInfo → List Report
unfolding incomplete_report
completed_reports [] = []
completed_reports (b ∷ stack) = completed_reports stack ++ incomplete_report b

-- `CheckCompletedBlocks`
unfoldable pub check_completed_blocks : NestingState → List Report
unfolding completed_reports
check_completed_blocks s = completed_reports s.stack
