-- ===== src/Samples/Cleansing.antt =====
-- Lines with comments, strings and raw strings.
use dyod_ws1718_sprint.Common.{◌≡◌, refl, false, none, List, [], ◌∷◌}
use dyod_ws1718_sprint.Text.{
  Str, lit, find, find_from, starts_with, ends_with, strip, strip_right, replace, count, str_eq,
}
use dyod_ws1718_sprint.Regex.{search, match_start, matches, group_or, sub}
use dyod_ws1718_sprint.Cleanse.{
  raw_line, raw_start, raw_start_pattern, remove_multi_line_comments, unfinished_comment,
  cleanse_comments, collapse_strings, escapes_pattern, include_line_pattern, is_cpp_string,
  find_next_multi_line_comment_start, find_next_multi_line_comment_end,
  remove_multi_line_comments_from_range,
}
use dyod_ws1718_sprint.Cleanse.RawLaws.{raw_line_ends}
use dyod_ws1718_sprint.Cleanse.Quotes.{Collapses, collapse_strings-Collapses}
use dyod_ws1718_sprint.Cleanse.Removal.{Removed, remove_multi_line_comments-Removed}

abbrev raw_text : Str
raw_text = lit "x = R\"(a \" b)\" + R\"d(c)d\";"

raw_text_cleansed : raw_line none raw_text ≡ (lit "x = \"\" + \"\";", none)
unfolding raw_line match_start lit group_or find starts_with
raw_text_cleansed = refl

raw_text_closed : (raw_line none raw_text).1 ≡ none
unfolding raw_line match_start lit group_or find starts_with
raw_text_closed = refl

raw_line_ends_example : raw_start (match_start raw_start_pattern (raw_line none raw_text).0) ≡ none
raw_line_ends_example = raw_line_ends none raw_text raw_text_closed

abbrev code : Str
code = lit "f(\"a, b\", 'c', 1'000);"

code_collapsed : collapse_strings code ≡ lit "f(\"\", '', 1000);"
unfolding collapse_strings sub match_start search lit group_or find starts_with str_eq replace
code_collapsed = refl

code_plain : matches include_line_pattern code ≡ false
unfolding match_start lit
code_plain = refl

collapse_strings-Collapses_example :
    Collapses [] (sub escapes_pattern [] code) (collapse_strings code)
collapse_strings-Collapses_example = collapse_strings-Collapses code code_plain

abbrev commented : List Str
commented = lit "a" ∷ lit "  /* b" ∷ lit "c" ∷ lit "d */" ∷ lit "/* e" ∷ []

remove_multi_line_comments-Removed_example :
    Removed commented (remove_multi_line_comments commented)
remove_multi_line_comments-Removed_example = remove_multi_line_comments-Removed commented

commented_removed :
    remove_multi_line_comments commented
    ≡ (lit "a" ∷ lit "/**/" ∷ lit "/**/" ∷ lit "/**/" ∷ lit "/* e" ∷ [], unfinished_comment 4 ∷ [])
unfolding remove_multi_line_comments find_next_multi_line_comment_start
    find_next_multi_line_comment_end remove_multi_line_comments_from_range lit strip starts_with
    ends_with find_from find
commented_removed = refl

comment_cut : cleanse_comments (lit "s = \"//\"; // t") ≡ lit "s = \"//\"; // t"
unfolding cleanse_comments is_cpp_string lit strip_right starts_with find sub replace count
comment_cut = refl
