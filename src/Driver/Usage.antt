-- ===== src/Driver/Usage.antt =====
-- `_USAGE`, `PrintUsage` and `PrintCategories`.
use dyod_ws1718_sprint.Common.{Option, none, some, List, [], ◌∷◌, ◌++◌}
use dyod_ws1718_sprint.Text.{Str, lit}
use dyod_ws1718_sprint.Report.{exit_status, exit_message}
use dyod_ws1718_sprint.Suppress.{error_categories}
use dyod_ws1718_sprint.Driver.{M, write, raise, ◌>>◌}

abbrev pub usage : Str
usage =
    lit "\n"
    ++ lit "Syntax: cpplint.py [--verbose=#] [--output=vs7] [--filter=-x,+y,...]\n"
    ++ lit "                   [--counting=total|toplevel|detailed] [--root=subdir]\n"
    ++ lit "                   [--linelength=digits]\n"
    ++ lit "        <file> [file] ...\n"
    ++ lit "\n"
    ++ lit "  The style guidelines this tries to follow are those in\n"
    ++ lit "    https://google-styleguide.googlecode.com/svn/trunk/cppguide.xml\n"
    ++ lit "\n"
    ++ lit "  Every problem is given a confidence score from 1-5, with 5 meaning we are\n"
    ++ lit "  certain of the problem, and 1 meaning it could be a legitimate construct.\n"
    ++ lit "  This will miss some errors, and is not a substitute for a code review.\n"
    ++ lit "\n"
    ++ lit "  To suppress false-positive errors of a certain category, add a\n"
    ++ lit "  'NOLINT(category)' comment to the line.  NOLINT or NOLINT(*)\n"
    ++ lit "  suppresses errors of all categories on that line.\n"
    ++ lit "\n"
    ++ lit "  The files passed in will be linted; at least one file must be provided.\n"
    ++ lit "  Default linted extensions are .cc, .cpp, .cu, .cuh and .h.  Change the\n"
    ++ lit "  extensions with the --extensions flag.\n"
    ++ lit "\n"
    ++ lit "  Flags:\n"
    ++ lit "\n"
    ++ lit "    output=vs7\n"
    ++ lit "      By default, the output is formatted to ease emacs parsing.  Visual Studio\n"
    ++ lit "      compatible output (vs7) may also be used.  Other formats are unsupported.\n"
    ++ lit "\n"
    ++ lit "    verbose=#\n"
    ++ lit "      Specify a number 0-5 to restrict errors to certain verbosity levels.\n"
    ++ lit "\n"
    ++ lit "    filter=-x,+y,...\n"
    ++ lit "      Specify a comma-separated list of category-filters to apply: only\n"
    ++ lit "      error messages whose category names pass the filters will be printed.\n"
    ++ lit "      (Category names are printed with the message and look like\n"
    ++ lit "      \"[whitespace/indent]\".)  Filters are evaluated left to right.\n"
    ++ lit "      \"-FOO\" and \"FOO\" means \"do not print categories that start with FOO\".\n"
    ++ lit "      \"+FOO\" means \"do print categories that start with FOO\".\n"
    ++ lit "\n"
    ++ lit "      Examples: --filter=-whitespace,+whitespace/braces\n"
    ++ lit "                --filter=whitespace,runtime/printf,+runtime/printf_format\n"
    ++ lit "                --filter=-,+build/include_what_you_use\n"
    ++ lit "\n"
    ++ lit "      To see a list of all the categories used in cpplint, pass no arg:\n"
    ++ lit "         --filter=\n"
    ++ lit "\n"
    ++ lit "    counting=total|toplevel|detailed\n"
    ++ lit "      The total number of errors found is always printed. If\n"
    ++ lit "      'toplevel' is provided, then the count of errors in each of\n"
    ++ lit "      the top-level categories like 'build' and 'whitespace' will\n"
    ++ lit "      also be printed. If 'detailed' is provided, then a count\n"
    ++ lit "      is provided for each category like 'build/class'.\n"
    ++ lit "\n"
    ++ lit "    root=subdir\n"
    ++ lit "      The root directory used for deriving header guard CPP variable.\n"
    ++ lit "      By default, the header guard CPP variable is calculated as the relative\n"
    ++ lit "      path to the directory that contains .git, .hg, or .svn.  When this flag\n"
    ++ lit "      is specified, the relative path is calculated from the specified\n"
    ++ lit "      directory. If the specified directory does not exist, this flag is\n"
    ++ lit "      ignored.\n"
    ++ lit "\n"
    ++ lit "      Examples:\n"
    ++ lit "        Assuming that src/.git exists, the header guard CPP variables for\n"
    ++ lit "        src/chrome/browser/ui/browser.h are:\n"
    ++ lit "\n"
    ++ lit "        No flag => CHROME_BROWSER_UI_BROWSER_H_\n"
    ++ lit "        --root=chrome => BROWSER_UI_BROWSER_H_\n"
    ++ lit "        --root=chrome/browser => UI_BROWSER_H_\n"
    ++ lit "\n"
    ++ lit "    linelength=digits\n"
    ++ lit "      This is the allowed line length for the project. The default value is\n"
    ++ lit "      80 characters.\n"
    ++ lit "\n"
    ++ lit "      Examples:\n"
    ++ lit "        --linelength=120\n"
    ++ lit "\n"
    ++ lit "    extensions=extension,extension,...\n"
    ++ lit "      The allowed file extensions that cpplint will check\n"
    ++ lit "\n"
    ++ lit "      Examples:\n"
    ++ lit "        --extensions=hpp,cpp\n"
    ++ lit "\n"
    ++ lit "    cpplint.py supports per-directory configurations specified in CPPLINT.cfg\n"
    ++ lit "    files. CPPLINT.cfg file can contain a number of key=value pairs.\n"
    ++ lit "    Currently the following options are supported:\n"
    ++ lit "\n"
    ++ lit "      set noparent\n"
    ++ lit "      filter=+filter1,-filter2,...\n"
    ++ lit "      exclude_files=regex\n"
    ++ lit "      linelength=80\n"
    ++ lit "      root=subdir\n"
    ++ lit "\n"
    ++ lit "    \"set noparent\" option prevents cpplint from traversing directory tree\n"
    ++ lit "    upwards looking for more .cfg files in parent directories. This option\n"
    ++ lit "    is usually placed in the top-level project directory.\n"
    ++ lit "\n"
    ++ lit "    The \"filter\" option is similar in function to --filter flag. It specifies\n"
    ++ lit "    message filters in addition to the |_DEFAULT_FILTERS| and those specified\n"
    ++ lit "    through --filter command-line flag.\n"
    ++ lit "\n"
    ++ lit "    \"exclude_files\" allows to specify a regular expression to be matched against\n"
    ++ lit "    a file name. If the expression matches, the file is skipped and not run\n"
    ++ lit "    through liner.\n"
    ++ lit "\n"
    ++ lit "    \"linelength\" allows to specify the allowed line length for the project.\n"
    ++ lit "\n"
    ++ lit "    The \"root\" option is similar in function to the --root flag (see example\n"
    ++ lit "    above).\n"
    ++ lit "\n"
    ++ lit "    CPPLINT.cfg has an effect on files in the same directory and all\n"
    ++ lit "    sub-directories, unless overridden by a nested configuration file.\n"
    ++ lit "\n"
    ++ lit "      Example file:\n"
    ++ lit "        filter=-build/include_order,+build/include_alpha\n"
    ++ lit "        exclude_files=.*\\.cc\n"
    ++ lit "\n"
    ++ lit "    The above example disables build/include_order warning and enables\n"
    ++ lit "    build/include_alpha as well as excludes all .cc from being\n"
    ++ lit "    processed by linter, in the current directory (where the .cfg\n"
    ++ lit "    file is located) and all sub-directories.\n"

unfoldable pub exit_usage {ℓ} : {A : Type ℓ} → Option Str → M A
exit_usage none = raise (exit_status 1)
exit_usage (some message) = raise (exit_message (lit "\nFATAL ERROR: " ++ message))

-- `PrintUsage`
unfoldable pub print_usage {ℓ} : {A : Type ℓ} → Option Str → M A
unfolding exit_usage
print_usage message = do write usage; exit_usage message

pub category_lines : List Str → Str
category_lines [] = []
category_lines (c ∷ cs) = lit "  " ++ c ++ lit "\n" ++ category_lines cs

-- `PrintCategories`
unfoldable pub print_categories {ℓ} : {A : Type ℓ} → M A
print_categories = do write (category_lines error_categories); raise (exit_status 0)
