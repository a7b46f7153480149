-- ===== src/Samples/Driver.antt =====
-- A run over one file below a directory with a configuration file.
use dyod_ws1718_sprint.Common.{
  ◌≡◌, ◌⊎◌, ◌∙◌, ap, sym, reverse, reverse-append, Bool-cases, get_or, inr, ◌||◌, if_elim, refl,
  arith, inl, true, false, none, some, List, [], ◌∷◌, ◌++◌, pos, if◌then◌else◌,
}
use dyod_ws1718_sprint.Text.{
  Str, lit, str_eq, str_eq_iff, mem_text, starts_with, ends_with, split_on, strip_bytes, is_empty,
  rfind_char, partition, strip_right_char, lower,
}
use dyod_ws1718_sprint.Paths.{split, join_path}
use dyod_ws1718_sprint.Paths.Checkout.{HasPlainRoot}
use dyod_ws1718_sprint.Regex.{search}
use dyod_ws1718_sprint.Report.{Exception, raised}
use dyod_ws1718_sprint.Suppress.{is_error_suppressed_by_nolint}
use dyod_ws1718_sprint.State.{
  initial, default_filters, is_filter, counts_categories, set_filters, add_filters,
  set_output_format, set_verbose_level, set_counting_style, reset_error_counts, backup_filters,
  restore_filters, increment_error_count, print_error_counts,
}
use dyod_ws1718_sprint.Errors.{error, errors, should_print_error}
use dyod_ws1718_sprint.Errors.Log.{IsReady, errors_total}
use dyod_ws1718_sprint.Errors.Calls.{from_log}
use dyod_ws1718_sprint.Checks.Files.{marked, check_for_copyright, check_for_newline_at_eof}
use dyod_ws1718_sprint.Driver.{Run, System, int, world_result}
use dyod_ws1718_sprint.Driver.Arguments.{first_options, parse_arguments}
use dyod_ws1718_sprint.Driver.Config.{Looking, config_loop, process_config_overrides}
use dyod_ws1718_sprint.Driver.Reading.{read_lines}
use dyod_ws1718_sprint.Driver.Linter.{Linter, IsSafe}
use dyod_ws1718_sprint.Driver.Files.{carriage_return, file_extension, process_file}
use dyod_ws1718_sprint.Driver.Main.{main}
use dyod_ws1718_sprint.Processing.Line.{Library}
use dyod_ws1718_sprint.Processing.FileData.{cpplint}
use dyod_ws1718_sprint.Processing.Safe.{cpplint-IsSafe}
use dyod_ws1718_sprint.Driver.Outcome.{Ends}
use dyod_ws1718_sprint.Driver.Quiet.{is_file_error}
use dyod_ws1718_sprint.Driver.Walk.{config_loop-same}
use dyod_ws1718_sprint.Driver.Restored.{IsRestored, process_file-IsRestored}
use dyod_ws1718_sprint.Driver.Exits.{Exits, main-Exits}
use dyod_ws1718_sprint.Driver.Endings.{
  Written, write_lines, is_one_line, read_back, read_lines-write,
}

abbrev config : List Str
config =
    lit "# settings\n"
    ∷ lit "filter=-legal  # no owner\n"
    ∷ lit "linelength = 100\n"
    ∷ lit "colour=red\n"
    ∷ []

-- Files below /p, where only /p/CPPLINT.cfg and /p/a.cc are; no pattern matches.
abbrev system : System
system = record {
  abspath = λ name. lit "/p/" ++ name;
  exists = λ name. str_eq name (lit "/p/a.cc");
  isfile = λ name. str_eq name (lit "/p/CPPLINT.cfg");
  config_lines = λ name. (config, false);
  decoded =
      λ name. if str_eq name (lit "a.cc") then some (lit "int a;\r\nint b;\nint c;") else none;
  pattern_match = λ pattern text. some false;
  set_order = λ members. members;
  getopt = λ args. some ([], args);
}

-- Two of the checks of `ProcessFileData`.
abbrev two_checks : Linter
two_checks = record {
  process_file_data = λ filename extension lines r.
      errors filename
        (check_for_copyright (marked lines) ++ check_for_newline_at_eof (marked lines)) r.world;
}

two_checks-IsSafe : IsSafe two_checks
two_checks-IsSafe filename extension lines r ready =
    let (w, e, logged) =
      errors_total filename
        (check_for_copyright (marked lines) ++ check_for_newline_at_eof (marked lines)) r.world
        ready in
    inl (w, e, from_log r.world w logged)

abbrev pub run : Run
run = record {
  world = record {
    suppressions = record { by_line = []; everywhere = [] };
    state = initial;
    stderr = [];
  };
  root = none;
  line_length = pos 80;
  valid_extensions = lit "cc" ∷ lit "h" ∷ [];
}

pub run-IsReady : IsReady run.world
unfolding initial default_filters is_filter counts_categories lit starts_with mem_text str_eq
run-IsReady = record { signed = (refl, tt); balanced = inl refl }

-- No other file can be read, and dictionaries keep their order.
abbrev pub library : Library
library = record {
  abspath = system.abspath;
  exists = system.exists;
  erased = λ pattern text. some text;
  opened = λ name. none;
  reason_order = λ reasons. reasons;
  keys_order = λ keys. keys;
  unicode = record { normalize = λ s. s; is_wide = λ c. false; is_combining = λ c. false };
}

other_end : (a t rest : Str) → reverse t ≡ b'n' ∷ rest → str_eq (a ++ t) (lit "/p/a.cc") ≡ false
unfolding lit
other_end a t rest h = elim (Bool-cases (str_eq (a ++ t) (lit "/p/a.cc"))) [
  | inr e ↦ e
  | inl e ↦
      let same : b'n' ∷ (rest ++ reverse a) ≡ reverse (lit "/p/a.cc") =
        ap (λ x. x ++ reverse a) (sym h)
        ∙ (sym (reverse-append a t) ∙ ap reverse ((str_eq_iff (a ++ t) (lit "/p/a.cc")).0 e)) in
      absurd (omega (arith, ap (λ x. get_or x 0 0) same))
]

-- The one file that exists is not `.svn`.
pub plain_root : HasPlainRoot library.abspath library.exists
unfolding join_path lit starts_with
plain_root dir top =
    if_elim (λ name. str_eq name (lit "/p/a.cc") ≡ false)
      (str_eq dir [] || starts_with (reverse dir) (lit "/"))
      (λ _. other_end dir (lit ".svn") _ refl) (λ _. other_end dir (b'/' ∷ lit ".svn") _ refl)

main-Exits_example :
    Exits (main system (cpplint library) (lit "a.cc" ∷ []) run)
    ⊎ ((s : Run) × (e : Exception) × (parse_arguments system (lit "a.cc" ∷ []) run ≡ (s, raised e))
        × (main system (cpplint library) (lit "a.cc" ∷ []) run ≡ (s, raised e)))
main-Exits_example =
    main-Exits system (cpplint library) (lit "a.cc" ∷ []) run (cpplint-IsSafe library plain_root)

process_file-IsRestored_example :
    Ends
      (λ _ s. IsRestored run.world.state.filters s)
      is_file_error
      (process_file system (cpplint library) (lit "a.cc") 1 run)
process_file-IsRestored_example =
    process_file-IsRestored system (cpplint library) (lit "a.cc") 1 run
      (cpplint-IsSafe library plain_root) run-IsReady

abbrev looking : Looking
looking = record { cfg_filters = []; keep_looking = true }

config_loop-same_example :
    config_loop 8 system (lit "a.cc") (lit "/p/a.cc") looking run
    ≡ config_loop 20 system (lit "a.cc") (lit "/p/a.cc") looking run
unfolding lit
config_loop-same_example =
    config_loop-same 8 20 system (lit "a.cc") (lit "/p/a.cc") looking run (omega arith)
      (omega arith)

abbrev three_lines : List Written
three_lines = (lit "int a;", true) ∷ (lit "int b;", false) ∷ (lit "", true) ∷ []

read_lines-write_example :
    read_lines (write_lines three_lines (lit "int c;")) ≡ read_back 1 three_lines (lit "int c;")
unfolding lit ends_with starts_with is_one_line
read_lines-write_example =
    read_lines-write three_lines (lit "int c;") ((refl, refl), ((refl, refl), ((refl, refl), tt)))
      refl

-- The run of the example: the configuration hides the missing copyright, and the missing newline and
-- the carriage return in line 1 are reported.
run_counts : (main system two_checks (lit "a.cc" ∷ []) run).0.world.state.error_count ≡ 2
unfolding main parse_arguments first_options set_filters default_filters starts_with lit split_on
    strip_bytes process_file process_config_overrides is_empty split rfind_char str_eq join_path
    partition int read_lines ends_with strip_right_char mem_text check_for_copyright
    check_for_newline_at_eof marked errors should_print_error is_error_suppressed_by_nolint initial
    search lower set_output_format set_verbose_level set_counting_style reset_error_counts
    backup_filters restore_filters add_filters increment_error_count file_extension world_result
    error carriage_return print_error_counts counts_categories
run_counts = refl
