-- ===== src/Driver/Round.antt =====
-- A round of the loop of `ProcessConfigOverrides` finds what the directory's configuration file says.
use dyod_ws1718_sprint.Common.{
  refl, sym, ◌∙◌, ap, Bool, true, false, not, ◌&&◌, Option, none, some, List, [], ◌∷◌, ◌++◌,
  append-nil, if◌then◌else◌,
}
use dyod_ws1718_sprint.Text.{Str, lit, str_eq, is_empty, strip_bytes, partition}
use dyod_ws1718_sprint.Paths.{join_path}
use dyod_ws1718_sprint.Driver.{System, M, ◌>>=◌, return, write, int}
use dyod_ws1718_sprint.Driver.Config.{
  Looking, Place, exclude_files, config_line_length, unknown_option, config_option, config_line,
  config_lines, config_failed, config_file, config_round,
}
use dyod_ws1718_sprint.Driver.Outcome.{Ends-weaken, IsQuiet, IsQuiet-modify}
use dyod_ws1718_sprint.Driver.Quiet.{is_file_error, line_length-IsQuiet}
use dyod_ws1718_sprint.Driver.Says.{
  option_says, line_says, lines_say, directory_says, Gives, then-Gives, any-Gives, return-Gives,
  Extends, and_true, and_false, same-Extends, Extends-then,
}

exclude_files-Gives :
    (p : Place) (val : Str) (s : Looking) (o : Option Bool)
    → Gives (Extends s ([], true)) (exclude_files p val s o)
unfolding exclude_files Extends is_file_error
exclude_files-Gives p val s none = record { ends = λ r. refl }
exclude_files-Gives p val s (some true) = record { ends = λ r. tt }
exclude_files-Gives p val s (some false) = return-Gives _ (some s) (same-Extends s)

choose-Gives :
    (s : Looking) (b : Bool) (x y : List Str × Bool) {m n : M (Option Looking)}
    → Gives (Extends s x) m
    → Gives (Extends s y) n
    → Gives (Extends s (if b then x else y)) (if b then m else n)
choose-Gives s true x y h k = h
choose-Gives s false x y h k = k

either-Gives :
    (s : Looking) (b : Bool) (x : List Str × Bool) {m n : M (Option Looking)}
    → Gives (Extends s x) m
    → Gives (Extends s x) n
    → Gives (Extends s x) (if b then m else n)
either-Gives s true x h k = h
either-Gives s false x h k = k

return_same : (s : Looking) → Gives (Extends s ([], true)) (return (some s))
return_same s = return-Gives (Extends s ([], true)) (some s) (same-Extends s)

then_same :
    (s : Looking) (m : M (Unit {0}))
    → IsQuiet is_file_error m
    → Gives (Extends s ([], true)) (m >>= λ _. return (some s))
then_same s m h =
    then-Gives (λ _. Unit {0}) (Extends s ([], true)) m (λ _. return (some s)) (any-Gives m h)
      (λ _ _. return_same s)

option-Gives :
    (sys : System) (p : Place) (name val : Str) (s : Looking)
    → Gives (Extends s (option_says name val)) (config_option sys p name val s)
unfolding option_says config_option Extends
option-Gives sys p name val s =
    choose-Gives s (str_eq name (lit "set noparent")) _ _
      (return-Gives _ (some (record s { keep_looking = false }))
        (sym (append-nil s.cfg_filters), and_false s.keep_looking))
      (choose-Gives s (str_eq name (lit "filter")) _ _
        (return-Gives _ (some (record s { cfg_filters = s.cfg_filters ++ val ∷ [] }))
          (refl, and_true s.keep_looking))
        (either-Gives s (str_eq name (lit "exclude_files")) _
          (either-Gives s (not (is_empty p.base_name)) _ (exclude_files-Gives p val s _)
            (return_same s))
          (either-Gives s (str_eq name (lit "linelength")) _
            (then_same s (config_line_length (int val)) (line_length-IsQuiet (int val)))
            (either-Gives s (str_eq name (lit "root")) _
              (then_same s _ (IsQuiet-modify (λ r. refl)))
              (then_same s (write (unknown_option p name)) (IsQuiet-modify (λ r. refl)))))))

line-Gives :
    (sys : System) (p : Place) (raw : Str) (s : Looking)
    → Gives (Extends s (line_says raw)) (config_line sys p raw s)
unfolding line_says config_line
line-Gives sys p raw s =
    choose-Gives s (is_empty (strip_bytes (partition raw b'#').0)) _ _ (return_same s)
      (option-Gives sys p _ _ s)

-- The rest of a loop that an early return leaves out.
next-Gives :
    (s : Looking) (a b : List Str × Bool) (rest : Looking → M (Option Looking))
    → ((t : Looking) → Gives (Extends t b) (rest t))
    → (o : Option Looking) → Extends s a o
    → Gives {A = Option Looking}
        (Extends s (a.0 ++ b.0, a.1 && b.1))
        (elim o [ none ↦ return none | some t ↦ rest t ])
unfolding Extends
next-Gives s a b rest h none k = return-Gives _ none tt
next-Gives s a b rest h (some t) k = record {
  ends = λ r.
      Ends-weaken is_file_error is_file_error (λ o _. Extends t b o)
        (λ o _. Extends s (a.0 ++ b.0, a.1 && b.1) o) (λ _ e. e)
        (λ o _ e. Extends-then s t a b o k e) (rest t r) ((h t).ends r);
}

lines-Gives :
    (sys : System) (p : Place) (lines : List Str) (s : Looking)
    → Gives (Extends s (lines_say lines)) (config_lines sys p lines s)
unfolding lines_say config_lines
lines-Gives sys p [] s = return_same s
lines-Gives sys p (line ∷ lines) s =
    then-Gives (Extends s (line_says line)) _ (config_line sys p line s) _ (line-Gives sys p line s)
      (next-Gives s (line_says line) (lines_say lines) (config_lines sys p lines)
        (lines-Gives sys p lines))

failed-Gives :
    (p : Place) (failed : Bool) (s : Looking) (a : List Str × Bool) (o : Option Looking)
    → Extends s a o
    → Gives (Extends s (a.0, a.1 && not failed)) (config_failed p failed o)
unfolding config_failed Extends
failed-Gives p failed s a none h = return-Gives _ none tt
failed-Gives p false s a (some t) (e, f) =
    return-Gives _ (some t) (e, f ∙ ap (λ c. s.keep_looking && c) (and_true a.1))
failed-Gives p true s a (some t) (e, f) = record {
  ends = λ r. (e, and_false s.keep_looking ∙ ap (λ c. s.keep_looking && c) (and_false a.1));
}

pub round-Gives :
    (sys : System) (filename dir base_name : Str) (s : Looking)
    → Gives (Extends s (directory_says sys dir)) (config_round sys filename dir base_name s)
unfolding directory_says config_round config_file
round-Gives sys filename dir base_name s =
    let file = join_path dir (lit "CPPLINT.cfg") in
    let p : Place = record { filename = filename; cfg_file = file; base_name = base_name } in
    choose-Gives s (not (sys.isfile file)) _ _ (return_same s) (
      then-Gives (Extends s (lines_say (sys.config_lines file).0)) _ _ _
        (lines-Gives sys p (sys.config_lines file).0 s)
        (failed-Gives p (sys.config_lines file).1 s (lines_say (sys.config_lines file).0)))
