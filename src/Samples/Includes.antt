-- ===== src/Samples/Includes.antt =====
-- Includes in order and out of order, and an include that is repeated.
use dyod_ws1718_sprint.Common.{
  ◌≡◌, ◌↔◌, refl, arith, true, false, not, ◌&&◌, none, some, List, [], ◌∷◌,
}
use dyod_ws1718_sprint.Text.{Str, lit, ends_with, starts_with, str_eq}
use dyod_ws1718_sprint.Regex.{match_start, matches}
use dyod_ws1718_sprint.Report.{Report, ok}
use dyod_ws1718_sprint.Paths.{dirname}
use dyod_ws1718_sprint.Include.{
  IncludeState, initial, find_header, check_next_include_order, c_sys_header, cpp_sys_header,
  likely_my_header, other_header, HeaderType,
}
use dyod_ws1718_sprint.Include.Order.{Checked, check_next_include_order-Checked}
use dyod_ws1718_sprint.Include.Sorted.{Passes, MyFirst, Passes-iff_MyFirst}
use dyod_ws1718_sprint.Include.Sorted
use dyod_ws1718_sprint.Include.Line.{handle_include, already_included, third_party_pattern}
use dyod_ws1718_sprint.Include.Duplicates.{included_twice}

initial-section : initial.section ≡ 0
unfolding initial
initial-section = refl

abbrev in_order : List HeaderType
in_order = likely_my_header ∷ c_sys_header ∷ cpp_sys_header ∷ other_header ∷ likely_my_header ∷ []

Passes-iff_MyFirst_example : Passes in_order initial ↔ MyFirst in_order
Passes-iff_MyFirst_example = Passes-iff_MyFirst in_order initial initial-section

in_order-MyFirst : MyFirst in_order
in_order-MyFirst = MyFirst.likely (
    MyFirst.rest (
      Sorted.CFirst.c (
        Sorted.CFirst.rest (
          Sorted.CppFirst.cpp (
            Sorted.CppFirst.rest
              (Sorted.OthersLast.other (Sorted.OthersLast.likely Sorted.OthersLast.done)))))))

abbrev behind_other : IncludeState
behind_other = (check_next_include_order other_header initial).0

behind_other-section : behind_other.section ≡ 4
unfolding check_next_include_order initial
behind_other-section = refl

check_next_include_order-Checked_example :
    Checked c_sys_header behind_other (check_next_include_order c_sys_header behind_other)
check_next_include_order-Checked_example =
    check_next_include_order-Checked c_sys_header behind_other (omega (arith, behind_other-section))

abbrev vector : Str
vector = lit "vector"

fresh : find_header vector initial ≡ none
unfolding find_header initial lit
fresh = refl

own :
    (ends_with vector (lit ".cc") && not (str_eq (dirname (lit "src/table.cpp")) (dirname vector)))
    ≡ false
unfolding ends_with starts_with lit
own = refl

plain : matches third_party_pattern vector ≡ false
unfolding match_start lit
plain = refl

included_twice_example :
    (after : IncludeState) × (reports : List Report) × (handle_include
        (lit "src/table.cpp")
        (ok (lit "src/table.cpp"))
        []
        3
        vector
        true
        (find_header vector initial)
        initial
      ≡ ok (after, reports))
    × (find_header vector after ≡ some 3)
    × (handle_include
          (lit "src/table.cpp")
          (ok (lit "src/table.cpp"))
          []
          9
          vector
          false
          (find_header vector after)
          after
        ≡ ok (after, already_included (lit "src/table.cpp") 9 vector 3 ∷ []))
included_twice_example =
    included_twice (lit "src/table.cpp") (lit "src/table.cpp") [] 3 9 vector true false initial
      fresh own plain
