-- ===== src/Cleanse/Views.antt =====
-- `CleansedLines`: the four views of a file.
use dyod_ws1718_sprint.Common.{ℕ, ◌≡◌, refl, ap, ◌∙◌, suc, List, [], ◌∷◌, map, length}
use dyod_ws1718_sprint.Text.{Str}
use dyod_ws1718_sprint.Cleanse.Raw.{cleanse_raw_strings}
use dyod_ws1718_sprint.Cleanse.RawLaws.{length-raw_lines_from}
use dyod_ws1718_sprint.Cleanse.Comments.{cleanse_comments}
use dyod_ws1718_sprint.Cleanse.Collapse.{collapse_strings}

pub record CleansedLines : Type 0 where
  pub elided : List Str
  pub lines : List Str
  pub raw_lines : List Str
  pub num_lines : ℕ
  pub lines_without_raw_strings : List Str

-- `__init__`
unfoldable pub cleansed_lines : List Str → CleansedLines
cleansed_lines raw =
    let without = cleanse_raw_strings raw in
    record {
      elided = map (λ line. cleanse_comments (collapse_strings line)) without;
      lines = map cleanse_comments without;
      raw_lines = raw;
      num_lines = length raw;
      lines_without_raw_strings = without;
    }

length-map {ℓ κ} :
    {A : Type ℓ} {B : Type κ} (f : A → B) (xs : List A) → length (map f xs) ≡ length xs
length-map f [] = refl
length-map f (x ∷ xs) = ap suc (length-map f xs)

length-cleanse_raw_strings : (lines : List Str) → length (cleanse_raw_strings lines) ≡ length lines
unfolding cleanse_raw_strings
length-cleanse_raw_strings lines = length-raw_lines_from _ lines

-- All four views have as many lines as the file, so that a line number means the same in each.
pub cleansed_lines-lengths :
    (raw : List Str)
    → let c = cleansed_lines raw in
      (length c.elided ≡ c.num_lines)
      × (length c.lines ≡ c.num_lines)
      × (length c.lines_without_raw_strings ≡ c.num_lines)
      × (length c.raw_lines ≡ c.num_lines)
unfolding cleansed_lines
cleansed_lines-lengths raw =
    let same = length-cleanse_raw_strings raw in
    (
      length-map _ (cleanse_raw_strings raw) ∙ same,
      length-map cleanse_comments (cleanse_raw_strings raw) ∙ same,
      same,
      refl,
    )
