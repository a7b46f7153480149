-- ===== src/Nesting/Indentation.antt =====
-- `CheckForNamespaceIndentation` with the functions that it calls, on the nesting states before and
-- behind the line.
use dyod_ws1718_sprint.Common.{
  ℕ, ◌+◌, ◌-◌, Bool, true, false, not, ◌&&◌, ◌||◌, Option, none, some, List, [], ◌∷◌, length,
  get_or, ltb, ◌==◌, if◌then◌else◌,
}
use dyod_ws1718_sprint.Text.{Str, lit}
use dyod_ws1718_sprint.Regex.{searches, matches}
use dyod_ws1718_sprint.Report.{Report, report_if}
use dyod_ws1718_sprint.Nesting.Blocks.{Kind, block, extern_c, class, namespace_, BlockInfo}
use dyod_ws1718_sprint.Nesting.Preprocessor.{
  NestingState, PreprocessorInfo, if_pattern, else_pattern, endif_pattern,
}

unfoldable pub is_namespace : Kind → Bool
is_namespace block = false
is_namespace extern_c = false
is_namespace (class c) = false
is_namespace (namespace_ name) = true

-- `previous_stack_top`, as far as its class goes: the top of the stack before the line.
unfoldable pub top_of : List BlockInfo → Option BlockInfo
top_of [] = none
top_of (b ∷ stack) = some b

-- The line has a copy of the stack put in the place of the stack.
unfoldable pub restores : Str → List PreprocessorInfo → Bool
restores line [] = false
restores line (p ∷ pps) =
    not (matches if_pattern line)
    && (matches else_pattern line || (matches endif_pattern line && p.seen_else))

-- `nesting_state.previous_stack_top == nesting_state.stack[-2]` compares objects. The block below
-- the top is the one that was on top before the line where the stack is no copy, has grown by one,
-- and that block is not one that the line itself has opened.
unfoldable pub is_previous : Str → ℕ → NestingState → List BlockInfo → Bool
unfolding restores
is_previous line linenum before [] = false
is_previous line linenum before (b ∷ []) = false
is_previous line linenum before (b ∷ below ∷ stack) =
    not (restores line before.pp_stack)
    && length stack + 1 == length before.stack
    && not (below.starting_linenum == linenum)

unfoldable pub tops_in_namespace : List BlockInfo → Bool
unfolding is_namespace
tops_in_namespace [] = false
tops_in_namespace (b ∷ stack) = is_namespace b.kind

-- `is_namespace_indent_item`
unfoldable pub is_namespace_indent_item : Str → ℕ → NestingState → List BlockInfo → Bool
unfolding is_previous tops_in_namespace
is_namespace_indent_item line linenum before [] = false
is_namespace_indent_item line linenum before (b ∷ stack) =
    b.check_namespace_indentation
    && tops_in_namespace before.stack
    && is_previous line linenum before (b ∷ stack)

-- `IsMacroDefinition`
unfoldable pub is_macro_definition : List Str → ℕ → Bool
is_macro_definition lines linenum =
    searches (lit "^#define") (get_or lines linenum [])
    || (ltb 0 linenum && searches (lit "\\\\$") (get_or lines (linenum - 1) []))

-- `IsForwardClassDeclaration`
unfoldable pub is_forward_class_declaration : Str → Bool
is_forward_class_declaration line = matches (lit "^\\s*(\\btemplate\\b)*.*class\\s+\\w+;\\s*$") line

-- `IsBlockInNameSpace`
unfoldable pub is_block_in_namespace : List BlockInfo → Bool → Bool
unfolding tops_in_namespace
is_block_in_namespace stack true = tops_in_namespace stack
is_block_in_namespace [] false = false
is_block_in_namespace (b ∷ stack) false = b.check_namespace_indentation && tops_in_namespace stack

-- `ShouldCheckNamespaceIndentation`
unfoldable pub should_check_namespace_indentation : List BlockInfo → Bool → List Str → ℕ → Bool
unfolding is_macro_definition is_forward_class_declaration is_block_in_namespace
should_check_namespace_indentation stack is_indent_item lines linenum =
    let is_forward_declaration = is_forward_class_declaration (get_or lines linenum []) in
    (is_indent_item || is_forward_declaration)
    && not (is_macro_definition lines linenum)
    && is_block_in_namespace stack is_forward_declaration

-- `CheckItemIndentationInNamespace`
unfoldable pub check_item_indentation_in_namespace : List Str → ℕ → List Report
check_item_indentation_in_namespace lines linenum =
    report_if (matches (lit "^\\s+") (get_or lines linenum [])) linenum
      (lit "runtime/indentation_namespace") 4 (lit "Do not indent within a namespace")

-- `CheckForNamespaceIndentation`, on `clean_lines.elided`
unfoldable pub check_for_namespace_indentation :
    List Str → ℕ → NestingState → NestingState → List Report
unfolding is_namespace_indent_item should_check_namespace_indentation
    check_item_indentation_in_namespace
check_for_namespace_indentation elided linenum before after =
    let is_indent_item =
      is_namespace_indent_item (get_or elided linenum []) linenum before after.stack in
    if should_check_namespace_indentation after.stack is_indent_item elided linenum
    then check_item_indentation_in_namespace elided linenum
    else []
