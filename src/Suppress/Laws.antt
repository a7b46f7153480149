-- ===== src/Suppress/Laws.antt =====
-- What a NOLINT comment suppresses, for every category and line.
use dyod_ws1718_sprint.Common.{
  ℕ, suc, ◌≡◌, refl, ap, arith, Bool, true, false, not, ◌&&◌, ◌||◌, Option, none, some, List, [],
  ◌∷◌, ◌==◌, Option-cases, inl, inr, if◌then◌else◌,
}
use dyod_ws1718_sprint.Text.{Str, lit, str_eq, str_eq_iff, mem_text, starts_with, ends_with}
use dyod_ws1718_sprint.Regex.{Found, search, group}
use dyod_ws1718_sprint.Report.{Report}
use dyod_ws1718_sprint.Suppress.{
  Suppressions, key_eq, mem_line, lines_of, add_line, inner, suppress_category, suppress,
  suppressed_line, nolint_pattern, parse_nolint_suppressions, is_error_suppressed_by_nolint,
  error_categories, legacy_error_categories, unknown_category,
}

key_eq→eq : (j k : Option Str) → key_eq j k ≡ true → j ≡ k
unfolding key_eq
key_eq→eq none none h = refl
key_eq→eq none (some t) h = cc
key_eq→eq (some s) none h = cc
key_eq→eq (some s) (some t) h = ap some ((str_eq_iff s t).0 h)

key_eq_self : (k : Option Str) → key_eq k k ≡ true
unfolding key_eq
key_eq_self none = refl
key_eq_self (some s) = (str_eq_iff s s).1 refl

-- A line that is added under a key is found under that key and under no other.
mem_line-add_line :
    (j k : Option Str) (m n : ℕ) (d : List (Option Str × List ℕ))
    → mem_line m (lines_of j (add_line k n d))
      ≡ (mem_line m (lines_of j d) || (key_eq k j && m == n))
unfolding mem_line lines_of add_line
mem_line-add_line j k m n [] = ground (arith)
mem_line-add_line j k m n ((i, ns) ∷ d) =
    ground (
      arith,
      key_eq→eq i k,
      key_eq→eq i j,
      key_eq_self k,
      key_eq→eq k j,
      mem_line-add_line j k m n d,
    )

-- The categories that the text in parentheses of a NOLINT comment names.
pub names_category : Option Str → Str → Bool
names_category none category = true
names_category (some t) category =
    str_eq t (lit "(*)")
    || (starts_with t (lit "(")
        && ends_with t (lit ")")
        && mem_text (inner t) error_categories
        && str_eq (inner t) category)

-- The line that a comment covers: the one below where `NEXTLINE` stands in it, else its own.
unfoldable pub covered_line : ℕ → Option Str → ℕ
covered_line linenum none = linenum
covered_line linenum (some next) = suc linenum

suppressed_line-covered :
    (linenum : ℕ) (m : Found) → suppressed_line linenum m ≡ covered_line linenum (group 1 m)
unfolding suppressed_line covered_line
suppressed_line-covered linenum m = elim (Option-cases (group 1 m)) [
  | inl e ↦ rw (e, suppressed_line) refl
  | inr (next, e) ↦ rw (e, suppressed_line) (omega arith)
]

-- What the first NOLINT comment of line `linenum` covers.
pub covers : Option Found → ℕ → Str → ℕ → Bool
covers none linenum category line = false
covers (some m) linenum category line =
    line == covered_line linenum (group 1 m) && names_category (group 2 m) category

suppress_lem :
    (linenum line : ℕ) (t : Option Str) (s : Suppressions) (category : Str) (n : ℕ)
    → is_error_suppressed_by_nolint (suppress linenum line t s).0 category n
      ≡ (is_error_suppressed_by_nolint s category n || (n == line && names_category t category))
unfolding suppress suppress_category is_error_suppressed_by_nolint names_category
suppress_lem linenum line none s category n = ground (
  arith,
  mem_line-add_line none none n line s.by_line,
  mem_line-add_line (some category) none n line s.by_line,
)
suppress_lem linenum line (some t) s category n = ground (
  arith,
  mem_line-add_line none none n line s.by_line,
  mem_line-add_line (some category) none n line s.by_line,
  mem_line-add_line (some category) (some (inner t)) n line s.by_line,
  mem_line-add_line none (some (inner t)) n line s.by_line,
)

-- Reading a line adds to the suppressed errors exactly what its first NOLINT comment covers: the
-- category that it names, or every one, on the line below for NOLINTNEXTLINE and on its own line
-- otherwise.
pub is_suppressed-parse_nolint :
    (raw_line : Str) (linenum : ℕ) (s : Suppressions) (category : Str) (n : ℕ)
    → is_error_suppressed_by_nolint (parse_nolint_suppressions raw_line linenum s).0 category n ≡ (
        is_error_suppressed_by_nolint s category n
        || covers (search nolint_pattern raw_line) linenum category n)
unfolding parse_nolint_suppressions covers
is_suppressed-parse_nolint raw_line linenum s category n =
    elim (Option-cases (search nolint_pattern raw_line)) [
      | inl e ↦ ground arith
      | inr (m, e) ↦ ground (
        arith,
        suppressed_line-covered linenum m,
        suppress_lem linenum (suppressed_line linenum m) (group 2 m) s category n,
      )
    ]

-- The comment names, in parentheses, a category that is neither known nor of an earlier version.
pub misnamed : Option Str → Bool
misnamed none = false
misnamed (some t) =
    not (str_eq t (lit "(*)"))
    && starts_with t (lit "(")
    && ends_with t (lit ")")
    && not (mem_text (inner t) error_categories)
    && not (mem_text (inner t) legacy_error_categories)

abbrev pub reports_of : ℕ → Option Str → List Report
reports_of linenum none = []
reports_of linenum (some t) = unknown_category linenum (inner t) ∷ []

suppress_reports :
    (linenum line : ℕ) (t : Option Str) (s : Suppressions)
    → (suppress linenum line t s).1 ≡ (if misnamed t then reports_of linenum t else [])
unfolding suppress suppress_category misnamed
suppress_reports linenum line none s = refl
suppress_reports linenum line (some t) s = ground arith

-- A line with a NOLINT comment gets one report where that names an unknown category, else none.
pub parse_nolint-reports :
    (raw_line : Str) (linenum : ℕ) (s : Suppressions) (m : Found)
    → search nolint_pattern raw_line ≡ some m
    → (parse_nolint_suppressions raw_line linenum s).1
      ≡ (if misnamed (group 2 m) then reports_of linenum (group 2 m) else [])
unfolding parse_nolint_suppressions
parse_nolint-reports raw_line linenum s m e =
    ground (arith, suppress_reports linenum (suppressed_line linenum m) (group 2 m) s)
