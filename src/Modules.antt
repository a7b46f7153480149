-- ===== src/Modules.antt =====
-- cpplint.py: `FilesBelongToSameModule`.
pub mod Prefix
use dyod_ws1718_sprint.Common.{
  ℕ, zero, suc, ◌-◌, Bool, true, false, not, Option, none, some, [], ◌∷◌, length, take,
  if◌then◌else◌,
}
use dyod_ws1718_sprint.Text.{Str, lit, ends_with, replace, is_empty}
use dyod_ws1718_sprint.Regex.{Found, search, group_or}
use dyod_ws1718_sprint.Report.{Result, ok, ◌>>=◌}
use dyod_ws1718_sprint.Paths.Info.{repository_name, base_name, extension, is_source}
use dyod_ws1718_sprint.Checks.Files.{test_file_pattern}

-- `s[:-n]`, which is empty for `n` 0
unfoldable pub without_last : ℕ → Str → Str
without_last zero s = []
without_last (suc n) s = take (length s - suc n) s

unfoldable pub plain_path : Str → Str
plain_path s = replace (replace s (lit "/public/") (lit "/")) (lit "/internal/") (lit "/")

unfoldable pub without_suffix : Str → Option Found → Str
without_suffix s none = s
without_suffix s (some m) = without_last (length (group_or 1 m)) s

-- The stem of a header's name.
unfoldable pub header_stem : Str → Str
unfolding plain_path without_last
header_stem filename_h =
    let stem = without_last 2 filename_h in
    plain_path (if ends_with stem (lit "-inl") then without_last 4 stem else stem)

-- The answer for the two stems, with the prefix of the header's.
unfoldable pub same_stem : Str → Str → Bool × Str
unfolding without_last
same_stem stem_cc stem_h =
    if ends_with stem_cc stem_h then (true, without_last (length stem_h) stem_cc) else (false, [])

-- The stem of a source file's name, whose name in the repository is `name`. A source file has an
-- extension, so one is taken off.
unfoldable pub source_stem : Str → Str → Str
unfolding plain_path without_suffix without_last
source_stem name filename_cc = plain_path (
    without_suffix (without_last (length (extension name)) filename_cc)
      (search test_file_pattern (base_name name)))

-- The answer, with the name in the repository of the first file.
unfoldable pub same_module : Str → Str → Str → Bool × Str
unfolding source_stem header_stem same_stem
same_module name filename_cc filename_h =
    if not (is_source name)
    then (false, [])
    else if not (ends_with filename_h (lit ".h"))
    then (false, [])
    else same_stem (source_stem name filename_cc) (header_stem filename_h)

module _ (abspath : Str → Str) (exists : Str → Bool) where
  -- `FilesBelongToSameModule`
  unfoldable pub files_belong_to_same_module : Str → Str → Result (Bool × Str)
  unfolding same_module
  files_belong_to_same_module filename_cc filename_h =
      repository_name abspath exists filename_cc >>= λ name.
      ok (same_module name filename_cc filename_h)
