-- ===== src/Include/Classify.antt =====
-- cpplint.py: `_DropCommonSuffixes` and `_ClassifyInclude`.
use dyod_ws1718_sprint.Common.{
  ℕ, ◌+◌, ◌-◌, Bool, false, ◌&&◌, ◌||◌, Option, none, some, List, [], ◌∷◌, ◌++◌, length, take,
  get_elem?, ltb, ◌==◌, if◌then◌else◌,
}
use dyod_ws1718_sprint.Text.{Str, lit, str_eq, mem_text, ends_with}
use dyod_ws1718_sprint.Regex.{Found, match_start}
use dyod_ws1718_sprint.Paths.{split, splitext, normpath}
use dyod_ws1718_sprint.Include.{
  HeaderType, c_sys_header, cpp_sys_header, likely_my_header, possible_my_header, other_header,
}
use dyod_ws1718_sprint.Include.CppHeaders.{cpp_headers}

pub is_joint : Option ℕ → Bool
is_joint none = false
is_joint (some c) = c == b'-' || c == b'_'

-- The text ends in the suffix, with `-` or `_` in front of it.
pub has_suffix : Str → Str → Bool
has_suffix filename suffix =
    ends_with filename suffix
    && ltb (length suffix) (length filename)
    && is_joint (get_elem? filename (length filename - (length suffix + 1)))

pub suffix_loop : Str → List Str → Str
suffix_loop filename [] = (splitext filename).0
suffix_loop filename (suffix ∷ suffixes) =
    if has_suffix filename suffix
    then take (length filename - (length suffix + 1)) filename
    else suffix_loop filename suffixes

-- `_DropCommonSuffixes`
unfoldable pub drop_common_suffixes : Str → Str
unfolding suffix_loop has_suffix is_joint
drop_common_suffixes filename = suffix_loop filename (
    lit "test.cc"
    ∷ lit "regtest.cc"
    ∷ lit "unittest.cc"
    ∷ lit "inl.h"
    ∷ lit "impl.h"
    ∷ lit "internal.h"
    ∷ [])

abbrev pub first_component : Str → Option Found
first_component = match_start (lit "^[^-_.]+")

pub same_component : Option Found → Option Found → Bool
same_component none n = false
same_component (some m) none = false
same_component (some m) (some n) = str_eq m.matched n.matched

pub classify_quoted : Str × Str → Str × Str → HeaderType
classify_quoted (target_dir, target_base) (include_dir, include_base) =
    if str_eq target_base include_base
      && (str_eq include_dir target_dir
          || str_eq include_dir (normpath (target_dir ++ lit "/../public")))
    then likely_my_header
    else if same_component (first_component target_base) (first_component include_base)
    then possible_my_header
    else other_header

-- `_ClassifyInclude`, of `fileinfo.RepositoryName()`
unfoldable pub classify_include : Str → Str → Bool → HeaderType
unfolding classify_quoted same_component
classify_include googlename include is_system =
    if is_system
    then (if mem_text include cpp_headers then cpp_sys_header else c_sys_header)
    else classify_quoted (split (drop_common_suffixes googlename))
        (split (drop_common_suffixes include))
