-- ===== src/Required/Headers.antt =====
-- `UpdateIncludeState`, and the loop that reads the headers of the module.
use dyod_ws1718_sprint.Common.{
  ℕ, suc, Bool, true, false, ◌||◌, Option, none, some, List, [], ◌∷◌, ◌++◌, if◌then◌else◌,
}
use dyod_ws1718_sprint.Text.{Str, str_eq}
use dyod_ws1718_sprint.Regex.{Found, search, group_or}
use dyod_ws1718_sprint.Report.{Result, ok, ◌>>=◌}
use dyod_ws1718_sprint.Include.{IncludeState}
use dyod_ws1718_sprint.Include.Line.{include_pattern}
use dyod_ws1718_sprint.Cleanse.{cleanse_comments}
use dyod_ws1718_sprint.Modules.{files_belong_to_same_module}

-- `include_dict`, in the order in which the headers were put into it.
abbrev pub Dict : Type 0
Dict = List (Str × ℕ)

unfoldable pub has_key : Str → Dict → Bool
has_key key [] = false
has_key key ((k, n) ∷ dict) = str_eq k key || has_key key dict

-- `include_dict.setdefault(key, value)`
unfoldable pub set_default : Str → ℕ → Dict → Dict
unfolding has_key
set_default key value dict = if has_key key dict then dict else dict ++ (key, value) ∷ []

-- `include_dict[key] = value`
unfoldable pub set_item : Str → ℕ → Dict → Dict
set_item key value [] = (key, value) ∷ []
set_item key value ((k, n) ∷ dict) =
    let rest = set_item key value dict in if str_eq k key then (k, value) ∷ dict else (k, n) ∷ rest

-- `dict(items)`
unfoldable pub dict_from : Dict → Dict → Dict
unfolding set_item
dict_from dict [] = dict
dict_from dict ((k, n) ∷ items) = dict_from (set_item k n dict) items

unfoldable pub flattened : List Dict → Dict
flattened [] = []
flattened (list ∷ lists) = list ++ flattened lists

-- The dictionary of `include_state.include_list`.
unfoldable pub include_dict_of : IncludeState → Dict
unfolding dict_from flattened
include_dict_of s = dict_from [] (flattened s.closed_lists ++ s.last_list)

unfoldable pub add_found : ℕ → Option Found → Dict → Dict
unfolding set_default
add_found linenum none dict = dict
add_found linenum (some m) dict = set_default (group_or 2 m) linenum dict

-- The loop over the lines of the header file; `linenum` is that of the first.
unfoldable pub add_lines : ℕ → List Str → Dict → Dict
unfolding add_found
add_lines linenum [] dict = dict
add_lines linenum (line ∷ lines) dict =
    add_lines (suc linenum) lines
      (add_found linenum (search include_pattern (cleanse_comments line)) dict)

-- `UpdateIncludeState`, on what opening the file gives: its lines, with their ends.
unfoldable pub update_include_state : Option (List Str) → Dict → Dict × Bool
unfolding add_lines
update_include_state none dict = (dict, false)
update_include_state (some lines) dict = (add_lines 1 lines dict, true)

module _ (abspath : Str → Str) (exists : Str → Bool) (opened : Str → Option (List Str)) where
  unfoldable pub read_header : Str → Bool × Str → Dict → Dict × Bool
  unfolding update_include_state
  read_header header (false, common_path) dict = (dict, false)
  read_header header (true, common_path) dict =
      update_include_state (opened (common_path ++ header)) dict

  -- The loop over the headers; the flag is `header_found`.
  unfoldable pub read_headers : Str → List Str → Dict × Bool → Result (Dict × Bool)
  unfolding read_header
  read_headers abs_filename [] found = ok found
  read_headers abs_filename (header ∷ headers) (dict, header_found) =
      files_belong_to_same_module abspath exists abs_filename header >>= λ same.
      let (after, success) = read_header header same dict in
      read_headers abs_filename headers (after, header_found || success)
