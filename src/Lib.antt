-- ===== src/Lib.antt =====
-- The linter cpplint.py of this repository: its core, as definitions that run, with theorems about
-- them.
--
-- The parts and how they interact. For each line of a file the linter's checks call `Error`, which
-- asks the NOLINT suppressions, the verbosity and the filters whether to print, counts what it
-- prints and writes a line. The checks see a file through `CleansedLines`: the lines without raw
-- strings, without comments, and without the contents of strings. `CheckIncludeLine` drives
-- `_IncludeState` over the include directives; `CheckForFunctionLengths` drives `_FunctionState`;
-- `NestingState.Update` keeps the open blocks; all hand their messages to `Error`.
-- `CheckForHeaderGuard` has lines read for NOLINT comments between its reports, so its result is
-- the list of its calls, which `performs` in Errors carries out. `CloseExpression` and
-- `ReverseCloseExpression` find the end and the start of a bracketed expression over several lines
-- for the checks that need it. All of them match lines against patterns.
-- `main` reads the arguments, and for every file `ProcessFile` reads the configuration files above it,
-- the file itself, and has its lines linted, with the filters taken back behind it.
--
-- Files and code. Every path below is of a file beside this one, and the code is cpplint.py.
--   Common, Common/*      shared names, Boolean tests, lists and options over native numbers,
--                         and integers
--   Text, Text/*          Python text: a list of code points, and the methods of str that are called
--   Regex, Regex/*        the module re: Syntax is a pattern as a tree, Compile reads pattern text,
--                         Engine is the backtracking search; Measures, Steps and Bounds say how much
--                         of the text a match takes
--   Report                a message to `error` and the exceptions; `Result` is a value or an exception
--   Suppress, Suppress/*  ParseNolintSuppressions, ProcessGlobalSuppresions,
--                         ResetNolintSuppressions, IsErrorSuppressedByNolint, the category tables
--   State, State/*        _CppLintState with its methods and the functions that call them
--   Errors, Errors/*      _ShouldPrintError and Error; `World` is the module's state with the lines
--                         that went to stderr
--   Paths, Paths/*        os.path as on POSIX, and FileInfo; Checkout says when RepositoryName ends
--   Include, Include/*    _IncludeState, _DropCommonSuffixes, _ClassifyInclude, CheckIncludeLine
--   Cleanse, Cleanse/*    CleanseRawStrings, the functions on comments, IsCppString,
--                         CleanseComments, CleansedLines
--   Expr, Expr/*          FindEndOfExpressionInLine, CloseExpression, FindStartOfExpressionInLine and
--                         ReverseCloseExpression; Nested is the independent description of well
--                         nested brackets
--   Functions, Functions/*  _FunctionState and CheckForFunctionLengths
--   Nesting, Nesting/*    NestingState: Blocks is _BlockInfo and its subclasses, Preprocessor is
--                         UpdatePreprocessor, Template is InTemplateArgumentList, Heads and Update
--                         are Update and CheckCompletedBlocks, Queries the methods that ask,
--                         Indentation CheckForNamespaceIndentation
--   Guards, Guards/*      GetHeaderGuardCPPVariable and CheckForHeaderGuard
--   Checks, Checks/*      CheckForCopyright, CheckHeaderFileIncluded, CheckForBadCharacters,
--                         CheckForNewlineAtEOF, CheckForMultilineCommentsAndStrings,
--                         CheckPosixThreading, CheckVlogArguments, CheckInvalidIncrement and
--                         GetIndentLevel
--   Modules, Modules/*    FilesBelongToSameModule
--   Style, Style/*        CheckStyle with the checks that it calls: Spacing has CheckSpacing,
--                         CheckAccess and CheckSectionSpacing, Operators the spaces around operators,
--                         parentheses and commas, Calls CheckSpacingForFunctionCall, Comments
--                         CheckComment, Blocks _IsType, IsDecltype and CheckBracesSpacing, Braces
--                         CheckBraces, Semicolons CheckTrailingSemicolon, Bodies CheckEmptyBlockBody,
--                         Macros CheckCheck and CheckAltTokens, Line CheckStyle; Tools IsBlankLine,
--                         GetPreviousNonBlankLine and GetLineWidth; Constructs
--                         CheckForNonStandardConstructs
--   Language, Language/*  CheckLanguage: Declarations has CheckGlobalStatic and CheckPrintf, Inside
--                         _GetTextInside, of which Closes and Enclosed say what it finds, Arrays the
--                         check for arrays of variable length, Casts CheckCasts and CheckCStyleCast,
--                         Line CheckLanguage; References has CheckForNonConstReference, Functions the
--                         tests on functions that it asks, Features CheckMakePairUsesDeduction,
--                         CheckRedundantVirtual, CheckRedundantOverrideOrFinal, FlagCxx11Features and
--                         FlagCxx14Features
--   Required, Required/*  UpdateIncludeState and CheckForIncludeWhatYouUse: Tables has the headers with
--                         their names, Entities what a file uses, Headers what it includes
--   Processing, Processing/*
--                         Line is ProcessLine, FileData ProcessFileData; Contained and the files on
--                         checks say which exceptions there can be, Safe that it can be relied on
--   Driver, Driver/*      Usage has PrintUsage and PrintCategories, Arguments ParseArguments, Config
--                         ProcessConfigOverrides (Says has what the filter lines of the
--                         directories are), Reading and Files ProcessFile, Main is main;
--                         `System` is what the operating system, getopt and re give, and `Run` the
--                         module's globals
--   Samples, Samples/*    runs on concrete inputs
-- Each method is a function from the object's record to the new record, with the messages it sends
-- in the order of the calls. A `for` over lines is structural recursion over them; Python's -1 for
-- a position that is not found is `none`; an exception is a value of `Result` or of an `Option`
-- beside the state. `sys.exit` is an exception with its status. In Driver an operation takes a `Run`
-- and gives the new one with a `Result`. The linting of a file's lines, ProcessFileData, is given to
-- Driver as a `Linter`; `IsSafe` says what ProcessFile relies on: it returns with the filters and
-- their backup as they were and one line for each counted error, or raises an `IndexError` or the error
-- of a --root that is no pattern. That ProcessFileData is such a linter is shown where no top directory
-- holds .svn, since RepositoryName does not end otherwise; `endless` stands for that. A check of
-- Style or Language that raises one gives only the exception, without the messages before it.
--
-- Bounds and fuel. Numbers are unbounded as in Python 2's long; divisions are integer quotients as
-- in Python 2. A loop that looks at text has the length of that text as its fuel: `collapse_loop`
-- and `open_raw` shorten their text in every round, by the bounds in Regex/Bounds; `remove_loop`
-- moves on by a line in every round. `consume_namespaces` and `consume_braces` take a keyword or a
-- brace from the line in every round. `look_loop` moves on by a character or a line in every round
-- and its fuel is above the number of both. `star_loop`, a repetition in a pattern, goes on only
-- where its body took a character, as Python's does. `svn_root` and `top_checkout` go up a path,
-- where every directory but a top one is longer than its parent; with its fuel used up `svn_root` is at a
-- top directory that holds .svn, and `endless`, as is `look_loop` with none left. The level of a long function is at most 5, so `log2_to`
-- needs six rounds. `digits` of a number has the number as its fuel.
-- `config_loop` goes up a path that gets shorter in every round, and `split_expression` takes a token
-- or an operand of the expression in every round. `hide_operators` hides the name of an operator in
-- every round, so the length of the line is enough.
--
-- Not modelled, and why. Reading files, writing to stderr and exiting are I/O: `System` has what the
-- system answers, and the lines written are part of the state; the file system and the order in which
-- Python goes through its dictionaries are parameters (`abspath`, `exists`, `Library`), and so is what `re` makes of a pattern that a user gives, for
-- exclude_files (`pattern_match`) and for --root (`erased`). In patterns,
-- flags are not read: the patterns that ignore case are searched in the text in lower case. The case of
-- letters and the classes are those of ASCII. The confidence is a natural number, and so is the
-- verbosity: a negative one ends the model of ParseArguments by `negative_verbosity`, where Python
-- goes on. The cache of compiled patterns has no effect on results. The additional check functions
-- that other scripts can give ProcessFileData are none, as in the call of it in this repository. The
-- C++ code of the repository is not part of this library.
pub mod Common
pub mod Text
pub mod Regex
pub mod Required
pub mod Report
pub mod Suppress
pub mod State
pub mod Style
pub mod Driver
pub mod Errors
pub mod Paths
pub mod Processing
pub mod Include
pub mod Cleanse
pub mod Expr
pub mod Functions
pub mod Nesting
pub mod Guards
pub mod Language
pub mod Checks
pub mod Modules
mod Samples
