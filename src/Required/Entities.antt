-- ===== src/Required/Entities.antt =====
-- The first loop of `CheckForIncludeWhatYouUse`: the headers that the lines of a file require.
use dyod_ws1718_sprint.Common.{
  ℕ, suc, Bool, true, not, ◌||◌, Option, none, some, List, [], ◌∷◌, ◌++◌, ◌==◌, if◌then◌else◌,
}
use dyod_ws1718_sprint.Text.{Str, lit, str_eq, contains, ends_with}
use dyod_ws1718_sprint.Regex.{Found, search, searches}
use dyod_ws1718_sprint.Required.Tables.{headers_containing_templates, headers_maybe_templates}

-- A pattern with the entity that it finds and the header that has it.
pub record Template : Type 0 where
  pub pattern : Str
  pub template : Str
  pub header : Str

-- The entries for the names that a header gives.
unfoldable pub templates_of : (Str → Str) → (Str → Str) → Str → List Str → List Template
templates_of pattern shown header [] = []
templates_of pattern shown header (t ∷ ts) =
    record { pattern = pattern t; template = shown t; header = header }
    ∷ templates_of pattern shown header ts

unfoldable pub all_templates : (Str → Str) → (Str → Str) → List (Str × List Str) → List Template
unfolding templates_of
all_templates pattern shown [] = []
all_templates pattern shown ((header, ts) ∷ table) =
    templates_of pattern shown header ts ++ all_templates pattern shown table

-- `_re_pattern_headers_maybe_templates`
unfoldable pub maybe_templates : List Template
unfolding all_templates
maybe_templates =
    all_templates (λ t. lit "[^>.]\\b" ++ (t ++ lit "(<.*?>)?\\([^\\)]")) (λ t. t)
      headers_maybe_templates

-- `_re_pattern_templates`
unfoldable pub templates : List Template
unfolding all_templates
templates =
    all_templates (λ t. lit "(\\<|\\b)" ++ (t ++ lit "\\s*\\<")) (λ t. t ++ lit "<>")
      headers_containing_templates

-- A reason to include a header: `required[header] = (linenum, template)`.
pub record Reason : Type 0 where
  pub header : Str
  pub linenum : ℕ
  pub template : Str

unfoldable pub require : Reason → List Reason → List Reason
require r [] = r ∷ []
require r (q ∷ required) =
    let rest = require r required in if str_eq q.header r.header then r ∷ required else q ∷ rest

-- What stands before a match is the prefix of std or none.
unfoldable pub is_std : Found → Bool
is_std m = ends_with m.before (lit "std::") || not (ends_with m.before (lit "::"))

unfoldable pub require_std : Reason → Option Found → List Reason → List Reason
unfolding is_std require
require_std r none required = required
require_std r (some m) required = if is_std m then require r required else required

-- The loop over `_re_pattern_headers_maybe_templates`.
unfoldable pub maybe_required : ℕ → Str → List Template → List Reason → List Reason
unfolding require
maybe_required linenum line [] required = required
maybe_required linenum line (t ∷ ts) required = maybe_required linenum line ts (
    if searches t.pattern line
    then require (record { header = t.header; linenum = linenum; template = t.template }) required
    else required)

-- The loop over `_re_pattern_templates`.
unfoldable pub templates_required : ℕ → Str → List Template → List Reason → List Reason
unfolding require_std
templates_required linenum line [] required = required
templates_required linenum line (t ∷ ts) required = templates_required linenum line ts (
    require_std (record { header = t.header; linenum = linenum; template = t.template })
      (search t.pattern line) required)

-- `not line or line[0] == '#'`
unfoldable pub is_skipped : Str → Bool
is_skipped [] = true
is_skipped (c ∷ line) = c == b'#'

unfoldable pub line_required : ℕ → Str → List Reason → List Reason
unfolding is_skipped require_std maybe_required templates_required
line_required linenum line required =
    if is_skipped line
    then required
    else let named = maybe_required linenum line maybe_templates (
        require_std (record { header = lit "<string>"; linenum = linenum; template = lit "string" })
          (search (lit "\\bstring\\b") line) required) in
      if contains line (lit "<") then templates_required linenum line templates named else named

-- The loop over `clean_lines.elided`, from line `linenum` on.
unfoldable pub required_from : ℕ → List Str → List Reason → List Reason
unfolding line_required
required_from linenum [] required = required
required_from linenum (line ∷ lines) required =
    required_from (suc linenum) lines (line_required linenum line required)
