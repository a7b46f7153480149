-- ===== src/Paths/Info.antt =====
-- cpplint.py: `FileInfo`. The file system enters as `abspath` and `exists`.
use dyod_ws1718_sprint.Common.{
  ℕ, zero, suc, ◌+◌, Bool, not, ◌||◌, [], ◌∷◌, length, drop, ◌==◌, if◌then◌else◌,
}
use dyod_ws1718_sprint.Text.{Str, lit, str_eq, mem_text, replace, join}
use dyod_ws1718_sprint.Report.{Result, ok, raised, endless, ◌>>=◌}
use dyod_ws1718_sprint.Paths.{split, dirname, splitext, join_path}

-- `_IsSourceExtension`
unfoldable pub is_source_extension : Str → Bool
is_source_extension s = mem_text s (lit "c" ∷ lit "cc" ∷ lit "cpp" ∷ lit "cxx" ∷ [])

-- The common start of two texts, `os.path.commonprefix`.
pub common_prefix : Str → Str → Str
common_prefix [] t = []
common_prefix (c ∷ s) [] = []
common_prefix (c ∷ s) (d ∷ t) = let rest = c ∷ common_prefix s t in if c == d then rest else []

module _ (abspath : Str → Str) (exists : Str → Bool) where
  unfoldable pub full_name : Str → Str
  full_name filename = replace (abspath filename) (lit "\\") (lit "/")

  abbrev pub has : Str → Str → Bool
  has dir name = exists (join_path dir name)

  abbrev pub is_checkout : Str → Bool
  is_checkout dir = has dir (lit ".git") || has dir (lit ".hg") || has dir (lit ".svn")

  -- The walk up while `.svn` is there. A directory's parent is shorter, so fuel above the length
  -- of the name reaches the root; if the root too holds `.svn`, the loop of the source never ends.
  unfoldable pub svn_root : ℕ → Str → Str → Result Str
  svn_root zero root_dir one_up_dir = raised endless
  svn_root (suc fuel) root_dir one_up_dir =
      let higher = svn_root fuel (dirname root_dir) (dirname one_up_dir) in
      if has one_up_dir (lit ".svn") then higher else ok root_dir

  -- The walk up to the root for the topmost checkout.
  unfoldable pub top_checkout : ℕ → Str → Str → Str
  top_checkout zero root_dir current_dir = root_dir
  top_checkout (suc fuel) root_dir current_dir =
      let found = if is_checkout current_dir then current_dir else root_dir in
      let higher = top_checkout fuel found (dirname current_dir) in
      if not (str_eq current_dir (dirname current_dir)) then higher else root_dir

  abbrev pub below : Str → Str → Str → Str
  below fullname root_dir project_dir =
      drop (length (common_prefix root_dir project_dir) + 1) fullname

  unfoldable pub repository_name : Str → Result Str
  unfolding full_name common_prefix svn_root top_checkout
  repository_name filename =
      let fullname = full_name filename in
      let project_dir = dirname fullname in
      let fuel = suc (length fullname) in
      let svn = svn_root fuel project_dir (dirname project_dir) in
      let top = top_checkout fuel project_dir project_dir in
      if not (exists fullname)
      then ok fullname
      else if has project_dir (lit ".svn")
      then svn >>= (λ root_dir. ok (below fullname root_dir project_dir))
      else if is_checkout top
      then ok (below fullname top project_dir)
      else ok fullname

-- The methods below read the repository name alone, `googlename`.
-- `Split`: directory, base name and extension
unfoldable pub split_name : Str → Str × Str × Str
split_name googlename =
    let (project, rest) = split googlename in
    let (base, extension) = splitext rest in (project, base, extension)

unfoldable pub base_name : Str → Str
unfolding split_name
base_name googlename = (split_name googlename).1

unfoldable pub extension : Str → Str
unfolding split_name
extension googlename = (split_name googlename).2

unfoldable pub no_extension : Str → Str
unfolding split_name
no_extension googlename =
    join (lit "/") ((split_name googlename).0 ∷ (split_name googlename).1 ∷ [])

unfoldable pub is_source : Str → Bool
unfolding extension is_source_extension
is_source googlename = is_source_extension (drop 1 (extension googlename))
