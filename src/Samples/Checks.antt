-- ===== src/Samples/Checks.antt =====
-- The checks of whole files and of single lines, and header guards.
use dyod_ws1718_sprint.Common.{
  ◌≡◌, ◌↔◌, refl, Bool, true, false, none, not, ◌||◌, some, List, [], ◌∷◌, ◌++◌, any, length,
  if◌then◌else◌,
}
use dyod_ws1718_sprint.Text.{
  Str, rfind_char, replace, lit, words, upper, lower, split_on, ends_with, is_empty, starts_with,
  str_eq,
}
use dyod_ws1718_sprint.Regex.{search, searches, match_start, sub, group_or, group}
use dyod_ws1718_sprint.Errors.{Call, nolint}
use dyod_ws1718_sprint.Report.{ok, raised, pattern_error, endless}
use dyod_ws1718_sprint.Guards.{
  scan_guard, guard_nolint_pattern, check_for_header_guard, guard_report, cpp_variable,
  slashes_message, no_guard_yet,
}
use dyod_ws1718_sprint.Guards.Scan.{first_name, last_endif, scan_guard_lem}
use dyod_ws1718_sprint.Guards.Correct.{is_silent, is_guarded, check_for_header_guard_lem}
use dyod_ws1718_sprint.Checks.Endings.{is_terminated, check_for_newline_at_eof_lem}
use dyod_ws1718_sprint.Checks.Included.{fits, first_line_of, check_header_file_included_lem}
use dyod_ws1718_sprint.Paths.Info.{svn_root, repository_name, base_name, extension}
use dyod_ws1718_sprint.Paths.{splitext, split, join_path, dirname}
use dyod_ws1718_sprint.Include.{IncludeState, add_include}
use dyod_ws1718_sprint.Include
use dyod_ws1718_sprint.Checks.Files.{
  marked, check_header_file_included, missing_header, header_of, all_includes, test_file_pattern,
  check_for_bad_characters, check_for_copyright, check_for_newline_at_eof,
}
use dyod_ws1718_sprint.Checks.Lines.{
  check_posix_threading, check_vlog_arguments, get_indent_level, check_invalid_increment,
}

abbrev guarded_file : List Str
guarded_file =
    lit "// marker"
    ∷ lit "#ifndef A_B_H_"
    ∷ lit "#define A_B_H_"
    ∷ lit "int f();"
    ∷ lit "#endif  // A_B_H_"
    ∷ lit "// marker"
    ∷ []

guard_accepted :
    check_for_header_guard (ok (lit "A_B_H_")) guarded_file
    ≡ ok (nolint 4 (lit "#endif  // A_B_H_") ∷ [])
unfolding check_for_header_guard search match_start words is_empty starts_with str_eq group lit
guard_accepted = refl

guard_renamed :
    check_for_header_guard (ok (lit "B_H_")) guarded_file
    ≡ ok (
        nolint 1 (lit "#ifndef A_B_H_")
        ∷ guard_report 1 5 (lit "#ifndef header guard has wrong style, please use: B_H_")
        ∷ nolint 4 (lit "#endif  // A_B_H_")
        ∷ guard_report 4 5 (slashes_message (lit "B_H_"))
        ∷ [])
unfolding check_for_header_guard search match_start words is_empty starts_with str_eq lit
guard_renamed = refl

variable_of_path :
    cpp_variable
      (λ pattern text. some (sub pattern [] text))
      (lit "lib")
      (lit "lib/storage/table.hpp")
    ≡ ok (lit "STORAGE_TABLE_HPP_")
unfolding cpp_variable sub upper lit
variable_of_path = refl

variable_of_bad_root :
    cpp_variable (λ pattern text. none) (lit "(") (lit "a.h") ≡ raised pattern_error
unfolding cpp_variable lit
variable_of_bad_root = refl

abbrev at_root : Str → Str
at_root name = lit "/r/" ++ name

-- Where every directory holds `.svn`, the walk does not end.
endless_walk : svn_root at_root (λ name. true) 9 (lit "/r/a") (lit "/r") ≡ raised endless
unfolding svn_root
endless_walk = refl

unsafe_call : length (check_posix_threading (lit "x = rand();  y = strtok(a, b);") 3) ≡ 2
unfolding check_posix_threading search lit
unsafe_call = refl

symbolic_level : length (check_vlog_arguments (lit "  VLOG(INFO) << 1;") 3) ≡ 1
unfolding check_vlog_arguments search lit
symbolic_level = refl

moved_pointer : length (check_invalid_increment (lit "  *count++;") 3) ≡ 1
unfolding check_invalid_increment match_start search lit
moved_pointer = refl

indented : get_indent_level (lit "    int a;") ≡ 4
unfolding get_indent_level match_start group_or lit
indented = refl

bad_line : length (check_for_bad_characters (lit "a" ∷ (0 ∷ 65533 ∷ []) ∷ [])) ≡ 2
unfolding check_for_bad_characters lit
bad_line = refl

copyright_found : check_for_copyright (lit "// marker" ∷ lit "// COPYRIGHT 2017 x" ∷ []) ≡ []
unfolding check_for_copyright search lower lit
copyright_found = refl

newline_missing : length (check_for_newline_at_eof (marked (split_on (lit "a\nb") b'\n'))) ≡ 1
unfolding check_for_newline_at_eof marked split_on is_empty lit
newline_missing = refl

check_for_newline_at_eof_example :
    (check_for_newline_at_eof (marked (split_on (lit "a\nb\n") b'\n')) ≡ [])
    ↔ (is_terminated (lit "a\nb\n") ≡ true)
check_for_newline_at_eof_example = check_for_newline_at_eof_lem (lit "a\nb\n")

variable_not_empty : is_empty (lit "A_B_H_") ≡ false
unfolding is_empty lit
variable_not_empty = refl

check_for_header_guard_example :
    (found : List Call) × (check_for_header_guard (ok (lit "A_B_H_")) guarded_file ≡ ok found)
    × (is_silent found ≡ (
        any (searches guard_nolint_pattern) guarded_file || is_guarded (lit "A_B_H_") guarded_file))
check_for_header_guard_example =
    check_for_header_guard_lem (lit "A_B_H_") guarded_file variable_not_empty

scan_guard_example :
    ((scan_guard 0 guarded_file no_guard_yet).ifndef ≡ (
      if is_empty no_guard_yet.ifndef
      then first_name (lit "#ifndef") guarded_file
      else no_guard_yet.ifndef))
    × ((scan_guard 0 guarded_file no_guard_yet).define ≡ (
        if is_empty no_guard_yet.define
        then first_name (lit "#define") guarded_file
        else no_guard_yet.define))
    × ((scan_guard 0 guarded_file no_guard_yet).endif ≡ last_endif no_guard_yet.endif guarded_file)
scan_guard_example = scan_guard_lem 0 guarded_file no_guard_yet

abbrev all_there : Str → Bool
all_there name = not (ends_with name (lit ".svn"))

abbrev one_include : IncludeState
one_include = add_include (lit "a/b.h") 3 Include.initial

name_in_checkout : repository_name at_root all_there (lit "a/c.cc") ≡ ok (lit "a/c.cc")
unfolding repository_name lit replace str_eq ends_with extension splitext rfind_char split join_path
    dirname
name_in_checkout = refl

header_in_checkout :
    repository_name at_root all_there (header_of (lit "a/c.cc") (lit "a/c.cc")) ≡ ok (lit "a/c.h")
unfolding repository_name lit replace str_eq ends_with extension splitext rfind_char split join_path
    dirname
header_in_checkout = refl

check_header_file_included_example :
    check_header_file_included at_root all_there (lit "a/c.cc") one_include
    ≡ ok (
        if searches test_file_pattern (base_name (lit "a/c.cc"))
          || not (all_there (header_of (lit "a/c.cc") (lit "a/c.cc")))
          || any (fits (lit "a/c.h")) (all_includes one_include.closed_lists one_include.last_list)
        then []
        else missing_header
            (lit "a/c.cc")
            (lit "a/c.h")
            (some (first_line_of (all_includes one_include.closed_lists one_include.last_list))))
check_header_file_included_example =
    check_header_file_included_lem at_root all_there (lit "a/c.cc") (lit "a/c.cc") (lit "a/c.h")
      one_include name_in_checkout header_in_checkout
