-- ===== src/Processing/NameChecks.antt =====
-- What asks for the names of files in the repository raises only the exceptions of a check, where no
-- top directory holds `.svn`.
use dyod_ws1718_sprint.Common.{ℕ, Bool, not, Option, none, some, List, [], ◌∷◌, if◌then◌else◌}
use dyod_ws1718_sprint.Text.{Str, lit, ends_with}
use dyod_ws1718_sprint.Regex.{searches, matches}
use dyod_ws1718_sprint.Report.{Result, ok}
use dyod_ws1718_sprint.Paths.Info.{repository_name, base_name}
use dyod_ws1718_sprint.Paths.Checkout.{HasPlainRoot, repository_name-IsOk}
use dyod_ws1718_sprint.Guards.{
  below_root, cpp_variable, get_header_guard_cpp_variable, check_for_header_guard,
}
use dyod_ws1718_sprint.Include.{IncludeState}
use dyod_ws1718_sprint.Include.Line.{
  order_report, record_include, is_foreign, third_party_pattern, handle_include, dispatch,
  check_include_line,
}
use dyod_ws1718_sprint.Checks.Files.{check_header_file_included, test_file_pattern, header_of}
use dyod_ws1718_sprint.Modules.{files_belong_to_same_module}
use dyod_ws1718_sprint.Required.Headers.{Dict, read_headers}
use dyod_ws1718_sprint.Required.Entities.{Reason}
use dyod_ws1718_sprint.Required.Check.{check_for_include_what_you_use}
use dyod_ws1718_sprint.Processing.Contained.{
  IsContained, ok-IsContained, pattern-IsContained, then-IsContained, if-IsContained,
  option-IsContained,
}

order_report-IsContained :
    (linenum : ℕ) (name : Result Str) (message : Str)
    → IsContained name
    → IsContained (order_report linenum name message)
unfolding order_report
order_report-IsContained linenum name [] h = ok-IsContained _
order_report-IsContained linenum name (c ∷ message) h =
    then-IsContained name h (λ _. ok-IsContained _)

record_include-IsContained :
    (name : Result Str) (elided : List Str) (linenum : ℕ) (include : Str) (is_system : Bool)
    (s : IncludeState)
    → IsContained name
    → IsContained (record_include name elided linenum include is_system s)
unfolding record_include
record_include-IsContained name elided linenum include is_system s h =
    then-IsContained (if is_system then ok [] else name)
      (if-IsContained is_system (ok-IsContained []) h)
      (λ _.
        then-IsContained (order_report linenum name _) (order_report-IsContained linenum name _ h)
          (λ _. ok-IsContained _))

is_foreign-IsContained :
    (name : Result Str) (include : Str) → IsContained name → IsContained (is_foreign name include)
unfolding is_foreign
is_foreign-IsContained name include h =
    if-IsContained (ends_with include (lit ".cc")) (then-IsContained name h (λ _. ok-IsContained _))
      (ok-IsContained _)

handle_include-IsContained :
    (filename : Str) (name : Result Str) (elided : List Str) (linenum : ℕ) (include : Str)
    (is_system : Bool) (o : Option ℕ) (s : IncludeState)
    → IsContained name
    → IsContained (handle_include filename name elided linenum include is_system o s)
unfolding handle_include
handle_include-IsContained filename name elided linenum include is_system (some line) s h =
    ok-IsContained _
handle_include-IsContained filename name elided linenum include is_system none s h =
    then-IsContained (is_foreign name include) (is_foreign-IsContained name include h) (λ foreign.
      if-IsContained foreign (ok-IsContained _) (
        if-IsContained (matches third_party_pattern include) (ok-IsContained _)
          (record_include-IsContained name elided linenum include is_system s h)))

dispatch-IsContained :
    (filename : Str) (name : Result Str) (elided : List Str) (linenum : ℕ) (o : Option (Str × Bool))
    (s : IncludeState)
    → IsContained name
    → IsContained (dispatch filename name elided linenum o s)
unfolding dispatch
dispatch-IsContained filename name elided linenum none s h = ok-IsContained _
dispatch-IsContained filename name elided linenum (some (include, is_system)) s h =
    handle_include-IsContained filename name elided linenum include is_system _ s h

below_root-IsContained :
    (erased : Str → Str → Option Str) (root path : Str) → IsContained (below_root erased root path)
unfolding below_root
below_root-IsContained erased [] path = ok-IsContained _
below_root-IsContained erased (c ∷ root) path =
    option-IsContained (erased _ path) pattern-IsContained (λ rest. ok-IsContained rest)

module _ (abspath : Str → Str) (exists : Str → Bool) (plain : HasPlainRoot abspath exists) where
  repository_name-IsContained :
      (filename : Str) → IsContained (repository_name abspath exists filename)
  repository_name-IsContained filename =
      let (name, e) = repository_name-IsOk abspath exists plain filename in
      rw e (ok-IsContained name)

  pub check_include_line-IsContained :
      (filename : Str) (lines elided : List Str) (linenum : ℕ) (s : IncludeState)
      → IsContained (check_include_line abspath exists filename lines elided linenum s)
  unfolding check_include_line
  check_include_line-IsContained filename lines elided linenum s =
      then-IsContained
        (dispatch filename (repository_name abspath exists filename) elided linenum _ s)
        (dispatch-IsContained filename (repository_name abspath exists filename) elided linenum _ s
          (repository_name-IsContained filename))
        (λ _. ok-IsContained _)

  pub guard_variable-IsContained :
      (erased : Str → Str → Option Str) (root filename : Str)
      → IsContained (get_header_guard_cpp_variable abspath exists erased root filename)
  unfolding get_header_guard_cpp_variable cpp_variable
  guard_variable-IsContained erased root filename =
      then-IsContained (repository_name abspath exists _) (repository_name-IsContained _) (λ path.
        then-IsContained (below_root erased root path) (below_root-IsContained erased root path)
          (λ _. ok-IsContained _))

  pub check_header_file_included-IsContained :
      (filename : Str) (s : IncludeState)
      → IsContained (check_header_file_included abspath exists filename s)
  unfolding check_header_file_included
  check_header_file_included-IsContained filename s =
      then-IsContained (repository_name abspath exists filename)
        (repository_name-IsContained filename)
        (λ name. if-IsContained (searches test_file_pattern (base_name name)) (ok-IsContained _) (
          if-IsContained (not (exists (header_of name filename))) (ok-IsContained _) (
            then-IsContained (repository_name abspath exists (header_of name filename))
              (repository_name-IsContained (header_of name filename)) (λ _. ok-IsContained _))))

  module _ (opened : Str → Option (List Str)) where
    read_headers-IsContained :
        (abs_filename : Str) (headers : List Str) (found : Dict × Bool)
        → IsContained (read_headers abspath exists opened abs_filename headers found)
    unfolding read_headers files_belong_to_same_module
    read_headers-IsContained abs_filename [] found = ok-IsContained _
    read_headers-IsContained abs_filename (header ∷ headers) (dict, header_found) =
        then-IsContained (files_belong_to_same_module abspath exists abs_filename header)
          (then-IsContained (repository_name abspath exists abs_filename)
            (repository_name-IsContained abs_filename) (λ _. ok-IsContained _))
          (λ _. read_headers-IsContained abs_filename headers _)

    pub check_for_include_what_you_use-IsContained :
        (order : List Reason → List Reason) (keys_order : List Str → List Str) (filename : Str)
        (elided : List Str) (s : IncludeState)
        → IsContained (
            check_for_include_what_you_use abspath exists opened order keys_order filename elided s)
    unfolding check_for_include_what_you_use
    check_for_include_what_you_use-IsContained order keys_order filename elided s =
        then-IsContained (read_headers abspath exists opened _ _ _) (read_headers-IsContained _ _ _)
          (λ _. ok-IsContained _)

pub check_for_header_guard-IsContained :
    (cppvar : Result Str) (lines : List Str)
    → IsContained cppvar
    → IsContained (check_for_header_guard cppvar lines)
unfolding check_for_header_guard
check_for_header_guard-IsContained cppvar lines h =
    if-IsContained _ (ok-IsContained _) (then-IsContained cppvar h (λ _. ok-IsContained _))
