-- ===== src/Include/Duplicates.antt =====
-- `CheckIncludeLine`: a header that was recorded is reported when it is included again.
use dyod_ws1718_sprint.Common.{
  ℕ, ◌≡◌, refl, arith, Bool, true, false, not, if◌then◌else◌, ◌&&◌, none, some, List, [], ◌∷◌, ◌++◌,
}
use dyod_ws1718_sprint.Text.{Str, lit, str_eq, str_eq_iff, ends_with}
use dyod_ws1718_sprint.Regex.{matches}
use dyod_ws1718_sprint.Report.{Report, ok}
use dyod_ws1718_sprint.Paths.{dirname}
use dyod_ws1718_sprint.Include.Classify.{classify_include}
use dyod_ws1718_sprint.Include.{
  IncludeState, HeaderType, c_sys_header, cpp_sys_header, likely_my_header, possible_my_header,
  other_header, find_header, set_last_header, add_include, canonicalize_alphabetical_order,
  is_in_alphabetical_order, check_next_include_order,
}
use dyod_ws1718_sprint.Include.Header.{find_header-add_include}
use dyod_ws1718_sprint.Include.Line.{
  third_party_pattern, order_report, alpha_report, record_include, is_foreign, handle_include,
  already_included,
}

-- `FindHeader` does not depend on the section.
find_header-check_next :
    (h : Str) (type : HeaderType) (s : IncludeState)
    → find_header h (check_next_include_order type s).0 ≡ find_header h s
unfolding find_header check_next_include_order
find_header-check_next h c_sys_header s = ground arith
find_header-check_next h cpp_sys_header s = ground arith
find_header-check_next h likely_my_header s = refl
find_header-check_next h possible_my_header s = refl
find_header-check_next h other_header s = refl

find_header-set_last_header :
    (h path : Str) (s : IncludeState) → find_header h (set_last_header path s) ≡ find_header h s
unfolding find_header set_last_header
find_header-set_last_header h path s = refl

is_foreign-own :
    (googlename include : Str)
    → (ends_with include (lit ".cc") && not (str_eq (dirname googlename) (dirname include))) ≡ false
    → is_foreign (ok googlename) include ≡ ok false
unfolding is_foreign
is_foreign-own googlename include h = ground arith

asked :
    (is_system : Bool) (googlename : Str)
    → (if is_system then ok [] else ok googlename) ≡ ok (if is_system then [] else googlename)
asked true googlename = refl
asked false googlename = refl

order_report-IsOk :
    (n : ℕ) (googlename message : Str)
    → (reports : List Report) × (order_report n (ok googlename) message ≡ ok reports)
unfolding order_report
order_report-IsOk n googlename [] = ([], refl)
order_report-IsOk n googlename (c ∷ message) = (_, refl)

-- Where the name in the repository is known, a header is recorded with its line.
recorded :
    (googlename : Str) (elided : List Str) (n : ℕ) (include : Str) (is_system : Bool)
    (s : IncludeState)
    → find_header include s ≡ none
    → (after : IncludeState) × (reports : List Report) × (record_include
          (ok googlename)
          elided
          n
          include
          is_system
          s
        ≡ ok (after, reports))
      × (find_header include after ≡ some n)
unfolding record_include
recorded googlename elided n include is_system s fresh =
    let name = if is_system then [] else googlename in
    let type = classify_include name include is_system in
    let next = check_next_include_order type (add_include include n s) in
    let canonical = canonicalize_alphabetical_order include in
    let (order, e) = order_report-IsOk n googlename next.1 in
    (
      set_last_header canonical next.0,
      order ++ alpha_report n include (is_in_alphabetical_order elided n canonical next.0),
      rw (asked is_system googlename, e) refl,
      rw find_header-set_last_header (
          rw find_header-check_next
            (rw (find_header-add_include, fresh, (str_eq_iff include include).1 refl))),
    )

-- A header that is neither recorded yet, nor a source file of another package, nor exempt is found
-- after its directive at that line, and a later directive for it, at any line and in either form,
-- changes nothing and reports that line.
pub included_twice :
    (filename googlename : Str) (elided : List Str) (n m : ℕ) (include : Str) (sys sys' : Bool)
    (s : IncludeState)
    → find_header include s ≡ none
    → (ends_with include (lit ".cc") && not (str_eq (dirname googlename) (dirname include))) ≡ false
    → matches third_party_pattern include ≡ false
    → (after : IncludeState) × (reports : List Report) × (handle_include filename
          (ok googlename)
          elided
          n
          include
          sys
          (find_header include s)
          s
        ≡ ok (after, reports))
      × (find_header include after ≡ some n)
      × (handle_include filename
            (ok googlename)
            elided
            m
            include
            sys'
            (find_header include after)
            after
          ≡ ok (after, already_included filename m include n ∷ []))
unfolding handle_include
included_twice filename googlename elided n m include sys sys' s fresh own plain =
    let (after, reports, e, found) = recorded googlename elided n include sys s fresh in
    (
      after,
      reports,
      rw (fresh, is_foreign-own googlename include own, plain) e,
      found,
      rw found refl,
    )
