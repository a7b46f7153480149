-- ===== src/Include/Header.antt =====
-- `FindHeader` after `append`, and the duplicates that `CheckIncludeLine` reports.
use dyod_ws1718_sprint.Common.{
  ℕ, ◌≡◌, refl, arith, Option, none, some, List, [], ◌∷◌, ◌++◌, if◌then◌else◌,
}
use dyod_ws1718_sprint.Text.{Str, str_eq}
use dyod_ws1718_sprint.Include.{IncludeState, find_in_list, find_in_lists, find_header, add_include}

-- The first of two places.
abbrev pub first_of_two : Option ℕ → Option ℕ → Option ℕ
first_of_two none o = o
first_of_two (some n) o = some n

find_in_list-append :
    (h g : Str) (n : ℕ) (fs : List (Str × ℕ))
    → find_in_list h (fs ++ (g, n) ∷ [])
      ≡ first_of_two (find_in_list h fs) (if str_eq g h then some n else none)
unfolding find_in_list
find_in_list-append h g n [] = refl
find_in_list-append h g n ((k, m) ∷ fs) = ground (arith, find_in_list-append h g n fs)

find_in_lists-append :
    (h g : Str) (n : ℕ) (lists : List (List (Str × ℕ))) (last : List (Str × ℕ))
    → find_in_lists h lists (last ++ (g, n) ∷ [])
      ≡ first_of_two (find_in_lists h lists last) (if str_eq g h then some n else none)
unfolding find_in_lists
find_in_lists-append h g n [] last = find_in_list-append h g n last
find_in_lists-append h g n (fs ∷ lists) last = ground (arith, find_in_lists-append h g n lists last)

-- A header that is recorded is found at its first line; every other answer is as before.
pub find_header-add_include :
    (h g : Str) (n : ℕ) (s : IncludeState)
    → find_header h (add_include g n s)
      ≡ first_of_two (find_header h s) (if str_eq g h then some n else none)
unfolding find_header add_include
find_header-add_include h g n s = find_in_lists-append h g n s.closed_lists s.last_list
