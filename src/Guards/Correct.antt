-- ===== src/Guards/Correct.antt =====
-- `CheckForHeaderGuard`: when it has nothing to report.
use dyod_ws1718_sprint.Common.{
  ℕ, ◌≡◌, refl, arith, Bool, true, false, not, ◌&&◌, ◌||◌, Option, none, some, List, [], ◌∷◌, ◌++◌,
  any, if◌then◌else◌, get_or, ap, ◌∙◌, inl, inr, Bool-cases,
}
use dyod_ws1718_sprint.Text.{Str, lit, str_eq, str_eq_iff, is_empty}
use dyod_ws1718_sprint.Regex.{Found, match_start, searches}
use dyod_ws1718_sprint.Report.{ok}
use dyod_ws1718_sprint.Errors.{Call, nolint, reported}
use dyod_ws1718_sprint.Guards.{
  Guard, no_guard_yet, scan_guard, is_old_style, no_single_line_comments, stars_calls, endif_calls,
  style_calls, guard_calls, guard_report, check_for_header_guard, slashes_pattern, stars_pattern,
  guard_nolint_pattern,
}
use dyod_ws1718_sprint.Guards.Scan.{first_name, last_endif, scan_guard_lem}

-- No call is a report of the check's own; a NOLINT comment that is read is none.
unfoldable pub is_silent : List Call → Bool
is_silent [] = true
is_silent (reported r ∷ calls) = false
is_silent (nolint n line ∷ calls) = is_silent calls

-- A comment was matched, and has no second underscore.
unfoldable pub is_current : Option Found → Bool
is_current none = false
is_current (some m) = not (is_old_style m)

-- The line that ends the guard names it: behind `//`, or, in a file without single-line comments,
-- in `/* */`.
unfoldable pub is_named : Str → List Str → Str → Bool
unfolding is_current
is_named cppvar raw_lines endif = elim (match_start (slashes_pattern cppvar) endif) [
  | some m ↦ not (is_old_style m)
  | none ↦
      no_single_line_comments raw_lines && is_current (match_start (stars_pattern cppvar) endif)
]

-- The file has the guard that its path asks for.
pub is_guarded : Str → List Str → Bool
is_guarded cppvar raw_lines =
    str_eq (first_name (lit "#ifndef") raw_lines) cppvar
    && str_eq (first_name (lit "#define") raw_lines) cppvar
    && is_named cppvar raw_lines (last_endif [] raw_lines)

stars_lem :
    (cppvar : Str) (n : ℕ) (b : Bool) (o : Option Found)
    → is_silent (stars_calls cppvar n b o) ≡ (b && is_current o)
unfolding is_silent stars_calls is_current guard_report
stars_lem cppvar n false o = refl
stars_lem cppvar n true none = refl
stars_lem cppvar n true (some m) = ground arith

endif_lem :
    (cppvar : Str) (raw_lines : List Str) (g : Guard) (o : Option Found)
    → match_start (slashes_pattern cppvar) g.endif ≡ o
    → is_silent (endif_calls cppvar raw_lines g o) ≡ is_named cppvar raw_lines g.endif
unfolding is_silent endif_calls is_named guard_report
endif_lem cppvar raw_lines g none e =
    rw (e, is_named)
      (stars_lem cppvar g.endif_linenum (no_single_line_comments raw_lines)
        (match_start (stars_pattern cppvar) g.endif))
endif_lem cppvar raw_lines g (some m) e = rw (e, is_named) (ground arith)

is_silent-style :
    (cppvar line : Str) (g : Guard) (calls : List Call)
    → is_silent (style_calls cppvar line g ++ calls) ≡ (str_eq g.ifndef cppvar && is_silent calls)
unfolding is_silent style_calls guard_report
is_silent-style cppvar line g calls = ground arith

-- Both names are the variable exactly when the first one is and the test for a guard lets them pass.
same_names :
    (i d c : Str)
    → is_empty c ≡ false
    → (str_eq i c && str_eq d c)
      ≡ (str_eq i c && not (is_empty i || is_empty d || not (str_eq i d)))
same_names i d c h = ground (arith, str_eq_iff i c, str_eq_iff d c, str_eq_iff i d)

guarded_silent :
    (a b p q : Bool) (r : Call) (calls : List Call)
    → is_silent (r ∷ []) ≡ false
    → is_silent calls ≡ (p && q)
    → (p && b) ≡ (p && not a)
    → is_silent (if a then r ∷ [] else calls) ≡ (p && b && q)
unfolding is_silent
guarded_silent a b p q r calls h k e = ground arith

guard_calls_lem :
    (cppvar : Str) (raw_lines : List Str) (g : Guard)
    → is_empty cppvar ≡ false
    → is_silent (guard_calls cppvar raw_lines g)
      ≡ (str_eq g.ifndef cppvar && str_eq g.define cppvar && is_named cppvar raw_lines g.endif)
unfolding is_silent guard_calls guard_report
guard_calls_lem cppvar raw_lines g h =
    guarded_silent (is_empty g.ifndef || is_empty g.define || not (str_eq g.ifndef g.define)) _ _ _
      _ _ refl
      (is_silent-style cppvar (get_or raw_lines g.ifndef_linenum []) g _
        ∙ ap (λ b. str_eq g.ifndef cppvar && b)
            (endif_lem cppvar raw_lines g (match_start (slashes_pattern cppvar) g.endif) refl))
      (same_names g.ifndef g.define cppvar h)

-- For a guard's name that is not empty, the check ends, and makes no report of its own exactly when
-- a line asks for that, or the first `#ifndef` and the first `#define` with a name have the guard's,
-- and the last line that starts with `#endif` names it in a comment of the current style. What the
-- NOLINT comments of the lines that it reads lead to is left aside.
pub check_for_header_guard_lem :
    (cppvar : Str) (raw_lines : List Str)
    → is_empty cppvar ≡ false
    → (found : List Call) × (check_for_header_guard (ok cppvar) raw_lines ≡ ok found)
      × (is_silent found
          ≡ (any (searches guard_nolint_pattern) raw_lines || is_guarded cppvar raw_lines))
unfolding check_for_header_guard is_silent is_guarded no_guard_yet is_empty
check_for_header_guard_lem cppvar raw_lines h =
    let (a, b, c) = scan_guard_lem 0 raw_lines no_guard_yet in
    elim (Bool-cases (any (searches guard_nolint_pattern) raw_lines)) [
      | inl e ↦ ([], rw e refl, rw e refl)
      | inr e ↦ (
        guard_calls cppvar raw_lines (scan_guard 0 raw_lines no_guard_yet),
        rw e refl,
        rw e (
            guard_calls_lem cppvar raw_lines (scan_guard 0 raw_lines no_guard_yet) h
            ∙ rw (a, b, c) refl),
      )
    ]
