-- ===== src/Driver/Quiet.antt =====
-- The calls that read the configuration files and the options: none of them touches the settings and
-- counts that `Error` uses, and which exceptions they raise.
use dyod_ws1718_sprint.Common.{
  ℕ, zero, suc, refl, Bool, true, false, not, ◌||◌, Option, none, some, List, [], ◌∷◌, length, ℤ,
}
use dyod_ws1718_sprint.Text.{Str, lit, str_eq, is_empty, strip_bytes, partition}
use dyod_ws1718_sprint.Report.{Exception, value_error, pattern_error, index_error}
use dyod_ws1718_sprint.Paths.{split, join_path}
use dyod_ws1718_sprint.Driver.{System, M, int, return}
use dyod_ws1718_sprint.Driver.Config.{
  Looking, Place, exclude_files, config_line_length, unknown_option, config_option, config_line,
  config_lines, config_failed, config_file, config_round, config_loop, find_config,
}
use dyod_ws1718_sprint.Driver.Outcome.{
  IsQuiet, IsQuiet-then, IsQuiet-if, IsQuiet-modify, IsQuiet-write, IsQuiet-return, IsQuiet-raise,
}

-- The exceptions that a malformed configuration file gives, and that a check may raise.
unfoldable pub is_file_error : Exception → Bool
is_file_error (value_error message) = true
is_file_error pattern_error = true
is_file_error index_error = true
is_file_error e = false

-- The rest of a loop that an early return leaves out.
unless_left {ℓ} :
    {A : Type ℓ} (rest : Looking → M (Option A))
    → ((s : Looking) → IsQuiet is_file_error (rest s))
    → (o : Option Looking)
    → IsQuiet {A = Option A} is_file_error (elim o [ none ↦ return none | some s ↦ rest s ])
unless_left rest h none = IsQuiet-return none
unless_left rest h (some s) = h s

exclude_files-IsQuiet :
    (p : Place) (val : Str) (s : Looking) (o : Option Bool)
    → IsQuiet is_file_error (exclude_files p val s o)
unfolding exclude_files is_file_error
exclude_files-IsQuiet p val s none = IsQuiet-raise refl
exclude_files-IsQuiet p val s (some true) =
    IsQuiet-then (IsQuiet-modify (λ r. refl)) (λ _. IsQuiet-return none)
exclude_files-IsQuiet p val s (some false) = IsQuiet-return (some s)

pub line_length-IsQuiet : (o : Option ℤ) → IsQuiet is_file_error (config_line_length o)
unfolding config_line_length
line_length-IsQuiet none = IsQuiet-modify (λ r. refl)
line_length-IsQuiet (some n) = IsQuiet-modify (λ r. refl)

option-IsQuiet :
    (sys : System) (p : Place) (name val : Str) (s : Looking)
    → IsQuiet is_file_error (config_option sys p name val s)
unfolding config_option
option-IsQuiet sys p name val s = IsQuiet-if (str_eq name (lit "set noparent")) (IsQuiet-return _) (
    IsQuiet-if (str_eq name (lit "filter")) (IsQuiet-return _) (
      IsQuiet-if (str_eq name (lit "exclude_files"))
        (IsQuiet-if (not (is_empty p.base_name))
          (exclude_files-IsQuiet p val s (sys.pattern_match val p.base_name)) (IsQuiet-return _))
        (IsQuiet-if (str_eq name (lit "linelength"))
          (IsQuiet-then (line_length-IsQuiet (int val)) (λ _. IsQuiet-return (some s)))
          (IsQuiet-if (str_eq name (lit "root"))
            (IsQuiet-then (IsQuiet-modify (λ r. refl)) (λ _. IsQuiet-return (some s)))
            (IsQuiet-then (IsQuiet-write (unknown_option p name))
              (λ _. IsQuiet-return (some s)))))))

line-IsQuiet :
    (sys : System) (p : Place) (raw : Str) (s : Looking)
    → IsQuiet is_file_error (config_line sys p raw s)
unfolding config_line
line-IsQuiet sys p raw s =
    IsQuiet-if (is_empty (strip_bytes (partition raw b'#').0)) (IsQuiet-return _)
      (option-IsQuiet sys p _ _ s)

lines-IsQuiet :
    (sys : System) (p : Place) (lines : List Str) (s : Looking)
    → IsQuiet is_file_error (config_lines sys p lines s)
unfolding config_lines
lines-IsQuiet sys p [] s = IsQuiet-return _
lines-IsQuiet sys p (line ∷ lines) s =
    IsQuiet-then (line-IsQuiet sys p line s)
      (unless_left (config_lines sys p lines) (lines-IsQuiet sys p lines))

failed-IsQuiet :
    (p : Place) (failed : Bool) (o : Option Looking)
    → IsQuiet is_file_error (config_failed p failed o)
unfolding config_failed
failed-IsQuiet p failed none = IsQuiet-return _
failed-IsQuiet p false (some s) = IsQuiet-return _
failed-IsQuiet p true (some s) = record { ends = λ r. refl }

file-IsQuiet :
    (sys : System) (p : Place) (s : Looking) → IsQuiet is_file_error (config_file sys p s)
unfolding config_file
file-IsQuiet sys p s = IsQuiet-then (lines-IsQuiet sys p _ s) (failed-IsQuiet p _)

round-IsQuiet :
    (sys : System) (filename abs_path base_name : Str) (s : Looking)
    → IsQuiet is_file_error (config_round sys filename abs_path base_name s)
unfolding config_round
round-IsQuiet sys filename abs_path base_name s =
    IsQuiet-if (not (sys.isfile (join_path abs_path (lit "CPPLINT.cfg")))) (IsQuiet-return _)
      (file-IsQuiet sys _ s)

pub config_loop-IsQuiet :
    (fuel : ℕ) (sys : System) (filename path : Str) (s : Looking)
    → IsQuiet is_file_error (config_loop fuel sys filename path s)
unfolding config_loop
config_loop-IsQuiet zero sys filename path s = IsQuiet-return _
config_loop-IsQuiet (suc fuel) sys filename path s =
    IsQuiet-if (not s.keep_looking || is_empty (split path).1) (IsQuiet-return _) (
      IsQuiet-then (round-IsQuiet sys filename _ _ s) (
        unless_left (config_loop fuel sys filename (split path).0)
          (config_loop-IsQuiet fuel sys filename (split path).0)))

pub find_config-IsQuiet :
    (sys : System) (filename : Str) → IsQuiet is_file_error (find_config sys filename)
unfolding find_config
find_config-IsQuiet sys filename =
    config_loop-IsQuiet (suc (length (sys.abspath filename))) sys filename (sys.abspath filename)
      (record { cfg_filters = []; keep_looking = true })
