-- ===== src/Samples/Nesting.antt =====
-- Lines with namespaces, classes and braces, and a conditional region.
use dyod_ws1718_sprint.Common.{ℕ, ◌<◌, ◌≡◌, refl, arith, true, false, List, [], ◌∷◌, length, map}
use dyod_ws1718_sprint.Text.{Str, lit, find, str_eq}
use dyod_ws1718_sprint.Expr.{mem_char}
use dyod_ws1718_sprint.Regex.{search, match_start, matches, group_or}
use dyod_ws1718_sprint.Report.{Report, Result, ok, raised}
use dyod_ws1718_sprint.Nesting.Blocks.{
  BlockInfo, block, extern_c, class, namespace_, new_block, new_namespace, new_class, check_begin,
}
use dyod_ws1718_sprint.Nesting.Preprocessor.{NestingState, initial, if_pattern, update_preprocessor}
use dyod_ws1718_sprint.Nesting.Template.{in_template_argument_list}
use dyod_ws1718_sprint.Nesting.Heads.{is_balanced, consume_namespaces}
use dyod_ws1718_sprint.Nesting.Update.{update, consume_braces}
use dyod_ws1718_sprint.Nesting.Total.{IsOk, in_template_argument_list-IsOk, update-IsOk}
use dyod_ws1718_sprint.Nesting.Restore.{Trace, whole, branches, region-Leads}
use dyod_ws1718_sprint.Nesting.Braces.{
  Consumes, Entered, consume_braces-Consumes, consume_namespaces-Entered,
}

-- The names of what is open, the innermost block first.
abbrev name_of : BlockInfo → Str
name_of b = elim b.kind [ class c ↦ c.name | namespace_ name ↦ name | _ ↦ lit "-" ]

abbrev opened_by : List Str → ℕ → Result (NestingState × List Report) → Result (List Str)
opened_by lines n (ok (s, reports)) = ok (map name_of s.stack)
opened_by lines n (raised e) = raised e

abbrev nested : List Str
nested = lit "namespace a { namespace b {" ∷ lit "class C : public D {" ∷ []

namespaces_opened :
    opened_by nested 0 (update nested nested 0 initial) ≡ ok (lit "b" ∷ lit "a" ∷ [])
unfolding update initial search match_start find group_or new_namespace update_preprocessor lit
namespaces_opened = refl

class_opened : opened_by nested 1 (update nested nested 1 initial) ≡ ok (lit "C" ∷ [])
unfolding update initial search match_start is_balanced update_preprocessor
    in_template_argument_list group_or mem_char str_eq new_class check_begin lit
class_opened = refl

template_argument : in_template_argument_list (lit "template <class T>" ∷ []) 0 17 ≡ ok true
unfolding in_template_argument_list match_start search group_or mem_char lit
template_argument = refl

abbrev one_block : List BlockInfo
one_block = new_block 3 true false block ∷ []

line_length : length (lit "} else {") < 9
unfolding lit
line_length = omega arith

consume_braces-Consumes_example :
    Consumes [] [] 4
      (lit "} else {")
      one_block
      (consume_braces 9 [] [] 4 (lit "} else {") one_block)
consume_braces-Consumes_example =
    consume_braces-Consumes [] [] 4 9 (lit "} else {") one_block line_length

namespaces_length : length (lit "namespace a { namespace b {") < 28
unfolding lit
namespaces_length = omega arith

consume_namespaces-Entered_example :
    Entered 4 one_block (consume_namespaces 28 4 (lit "namespace a { namespace b {") one_block)
consume_namespaces-Entered_example =
    consume_namespaces-Entered 28 4 (lit "namespace a { namespace b {") one_block namespaces_length

-- `#if`, a line that opens a block, `#else`, a line that opens another, `#endif`.
abbrev before_if : NestingState
before_if = record { stack = []; pp_stack = [] }

abbrev in_first : NestingState
in_first = record (update_preprocessor (lit "#if X") before_if) { stack = one_block }

abbrev in_second : NestingState
in_second = record (update_preprocessor (lit "#else") in_first) {
  stack = new_block 5 true false extern_c ∷ [];
}

abbrev behind_endif : NestingState
behind_endif = update_preprocessor (lit "#endif") in_second

if_read : matches if_pattern (lit "#if X") ≡ true
unfolding match_start search lit
if_read = refl

first_branch : Trace whole (update_preprocessor (lit "#if X") before_if) in_first
first_branch = Trace.change one_block Trace.done

other_branch : Trace branches in_first behind_endif
unfolding match_start search lit
other_branch =
    Trace.branch {c = in_second} (lit "#else") refl refl
      (Trace.change (new_block 5 true false extern_c ∷ []) Trace.done)
      (Trace.ended (lit "#endif") refl refl refl refl)

region-Leads_example :
    (behind_endif.pp_stack ≡ before_if.pp_stack) × (behind_endif.stack ≡ in_first.stack)
region-Leads_example =
    region-Leads before_if in_first behind_endif (lit "#if X") if_read first_branch other_branch

in_template_argument_list-IsOk_example : IsOk (in_template_argument_list nested 1 7)
in_template_argument_list-IsOk_example = in_template_argument_list-IsOk nested 1 7

nested_lines : 1 < length nested
nested_lines = omega arith

update-IsOk_example : IsOk (update nested nested 1 initial)
update-IsOk_example = update-IsOk nested nested 1 initial nested_lines
