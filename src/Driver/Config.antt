-- ===== src/Driver/Config.antt =====
-- `ProcessConfigOverrides`: the configuration files from the file's directory up to the root.
use dyod_ws1718_sprint.Common.{
  ℕ, zero, suc, Bool, true, false, not, ◌||◌, Option, none, some, List, [], ◌∷◌, ◌++◌, length,
  reverse, if◌then◌else◌, ℤ,
}
use dyod_ws1718_sprint.Text.{Str, lit, str_eq, is_empty, strip_bytes, partition}
use dyod_ws1718_sprint.Report.{pattern_error}
use dyod_ws1718_sprint.State.{add_filters}
use dyod_ws1718_sprint.Paths.{split, join_path}
use dyod_ws1718_sprint.Driver.{System, M, ◌>>=◌, ◌>>◌, return, raise, modify, write, int}
use dyod_ws1718_sprint.Driver.Arguments.{filters_call}

-- `cfg_filters` and `keep_looking`
pub record Looking : Type 0 where
  pub cfg_filters : List Str
  pub keep_looking : Bool

-- The names that the messages need: the file that is linted, the configuration file, and the
-- component of the path that `exclude_files` is matched with.
pub record Place : Type 0 where
  pub filename : Str
  pub cfg_file : Str
  pub base_name : Str

unfoldable pub excluded_message : Place → Str → Str
excluded_message p val =
    lit "Ignoring \""
    ++ (p.filename
        ++ (lit "\": file excluded by \""
            ++ (p.cfg_file
                ++ (lit "\". File path component \""
                    ++ (p.base_name ++ (lit "\" matches pattern \"" ++ (val ++ lit "\"")))))))

-- `none` is the early `return False`.
unfoldable pub exclude_files : Place → Str → Looking → Option Bool → M (Option Looking)
exclude_files p val s none = raise pattern_error
exclude_files p val s (some true) = do write (excluded_message p val); return none
exclude_files p val s (some false) = return (some s)

unfoldable pub config_line_length : Option ℤ → M (Unit {0})
config_line_length none = write (lit "Line length must be numeric.")
config_line_length (some n) = modify (λ r. record r { line_length = n })

unfoldable pub unknown_option : Place → Str → Str
unknown_option p name =
    lit "Invalid configuration option (" ++ (name ++ (lit ") in file " ++ p.cfg_file))

unfoldable pub config_option : System → Place → Str → Str → Looking → M (Option Looking)
unfolding exclude_files config_line_length
config_option sys p name val s =
    if str_eq name (lit "set noparent")
    then return (some (record s { keep_looking = false }))
    else if str_eq name (lit "filter")
    then return (some (record s { cfg_filters = s.cfg_filters ++ val ∷ [] }))
    else if str_eq name (lit "exclude_files")
    then (if not (is_empty p.base_name)
        then exclude_files p val s (sys.pattern_match val p.base_name)
        else return (some s))
    else if str_eq name (lit "linelength")
    then (do config_line_length (int val); return (some s))
    else if str_eq name (lit "root")
    then (do modify (λ r. record r { root = some val }); return (some s))
    else (do write (unknown_option p name); return (some s))

-- A line of the file, with its comment.
unfoldable pub config_line : System → Place → Str → Looking → M (Option Looking)
unfolding config_option
config_line sys p raw s =
    let line = (partition raw b'#').0 in
    let (name, val) = partition line b'=' in
    if is_empty (strip_bytes line)
    then return (some s)
    else config_option sys p (strip_bytes name) (strip_bytes val) s

unfoldable pub config_lines : System → Place → List Str → Looking → M (Option Looking)
unfolding config_line
config_lines sys p [] s = return (some s)
config_lines sys p (line ∷ lines) s = do
  o ← config_line sys p line s
  elim o [ none ↦ return none | some t ↦ config_lines sys p lines t ]

-- The `except IOError`.
unfoldable pub config_failed : Place → Bool → Option Looking → M (Option Looking)
config_failed p failed none = return none
config_failed p false (some s) = return (some s)
config_failed p true (some s) = do
  write (lit "Skipping config file '" ++ (p.cfg_file ++ lit "': Can't open for reading"))
  return (some (record s { keep_looking = false }))

unfoldable pub config_file : System → Place → Looking → M (Option Looking)
unfolding config_lines config_failed
config_file sys p s =
    let (lines, failed) = sys.config_lines p.cfg_file in
    do o ← config_lines sys p lines s; config_failed p failed o

-- One round of the loop at a path that is not the root.
unfoldable pub config_round : System → Str → Str → Str → Looking → M (Option Looking)
unfolding config_file
config_round sys filename abs_path base_name s =
    let cfg_file = join_path abs_path (lit "CPPLINT.cfg") in
    if not (sys.isfile cfg_file)
    then return (some s)
    else config_file sys
        (record { filename = filename; cfg_file = cfg_file; base_name = base_name }) s

-- The loop, which goes up a path: a round with fuel left stops at the root, or where a file says so.
unfoldable pub config_loop : ℕ → System → Str → Str → Looking → M (Option (List Str))
unfolding config_round
config_loop zero sys filename abs_filename s = return (some s.cfg_filters)
config_loop (suc fuel) sys filename abs_filename s =
    let (abs_path, base_name) = split abs_filename in
    if not s.keep_looking || is_empty base_name then return (some s.cfg_filters) else (do
      o ← config_round sys filename abs_path base_name s
      elim o [ none ↦ return none | some t ↦ config_loop fuel sys filename abs_path t ])

unfoldable pub add_all : List Str → M (Unit {0})
unfolding filters_call
add_all [] = return tt
add_all (f ∷ fs) = do filters_call (add_filters f); add_all fs

unfoldable pub apply_config : Option (List Str) → M Bool
unfolding add_all
apply_config none = return false
apply_config (some cfg_filters) = do add_all (reverse cfg_filters); return true

-- The loop from the path of the file on.
unfoldable pub find_config : System → Str → M (Option (List Str))
unfolding config_loop
find_config sys filename =
    let path = sys.abspath filename in
    config_loop (suc (length path)) sys filename path
      (record { cfg_filters = []; keep_looking = true })

-- `ProcessConfigOverrides`
unfoldable pub process_config_overrides : System → Str → M Bool
unfolding find_config apply_config
process_config_overrides sys filename = do found ← find_config sys filename; apply_config found
