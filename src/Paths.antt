-- ===== src/Paths.antt =====
-- The functions of `os.path` (POSIX) that cpplint.py calls, and the parts of a file's name.
pub mod Info
pub mod Shorter
pub mod Checkout
use dyod_ws1718_sprint.Common.{
  ℕ, suc, ◌+◌, ◌-◌, Bool, true, false, not, ◌&&◌, ◌||◌, Option, none, some, List, [], ◌∷◌, ◌++◌,
  length, take, drop, reverse, ltb, all, ◌==◌, if◌then◌else◌,
}
use dyod_ws1718_sprint.Text.{Str, lit, str_eq, starts_with, split_on, join, rfind_char}

unfoldable pub slash_end : Option ℕ → ℕ
slash_end none = 0
slash_end (some i) = suc i

unfoldable pub drop_slashes : Str → Str
drop_slashes [] = []
drop_slashes (c ∷ s) = let rest = drop_slashes s in if c == b'/' then rest else c ∷ s

-- `head.rstrip('/')`, unless that is empty
unfoldable pub trim_head : Str → Str
trim_head head = elim (drop_slashes (reverse head)) [ [] ↦ head | c ∷ cs ↦ reverse (c ∷ cs) ]

-- `os.path.split`
unfoldable pub split : Str → Str × Str
unfolding slash_end trim_head drop_slashes
split p = let i = slash_end (rfind_char p b'/') in (trim_head (take i p), drop i p)

unfoldable pub dirname : Str → Str
unfolding split
dirname p = (split p).0

unfoldable pub basename : Str → Str
unfolding split
basename p = (split p).1

-- `os.path.splitext`: at the last dot of the last component, if something other than a dot stands
-- before it there.
pub split_base : Str → Str → Option ℕ → Str × Str
split_base dir base none = (dir ++ base, [])
split_base dir base (some i) =
    if all (λ c. c == b'.') (take i base)
    then (dir ++ base, [])
    else (dir ++ take i base, drop i base)

unfoldable pub splitext : Str → Str × Str
unfolding slash_end split_base
splitext p =
    let i = slash_end (rfind_char p b'/') in
    let base = drop i p in split_base (take i p) base (rfind_char base b'.')

-- One component of `os.path.normpath`; the components so far are reversed.
pub norm_step : Bool → Str → List Str → List Str
norm_step rooted part [] =
    if str_eq part [] || str_eq part (lit ".")
    then []
    else if str_eq part (lit "..") && rooted
    then []
    else part ∷ []
norm_step rooted part (q ∷ qs) =
    if str_eq part [] || str_eq part (lit ".")
    then q ∷ qs
    else if not (str_eq part (lit "..")) || str_eq q (lit "..")
    then part ∷ q ∷ qs
    else qs

pub norm_parts : Bool → List Str → List Str → List Str
norm_parts rooted [] out = out
norm_parts rooted (part ∷ parts) out = norm_parts rooted parts (norm_step rooted part out)

-- The slashes that are kept: one, or two where there are exactly two.
pub initial_slashes : Str → Str
initial_slashes p =
    if starts_with p (lit "///")
    then lit "/"
    else if starts_with p (lit "//")
    then lit "//"
    else if starts_with p (lit "/")
    then lit "/"
    else []

unfoldable pub normpath : Str → Str
unfolding norm_step norm_parts initial_slashes
normpath p =
    let slashes = initial_slashes p in
    let parts = norm_parts (not (str_eq slashes [])) (split_on p b'/') [] in
    let whole = slashes ++ join (lit "/") (reverse parts) in
    if str_eq whole [] then lit "." else whole

-- `os.path.join` of two
unfoldable pub join_path : Str → Str → Str
join_path a b =
    if starts_with b (lit "/")
    then b
    else if str_eq a [] || starts_with (reverse a) (lit "/")
    then a ++ b
    else a ++ b'/' ∷ b
