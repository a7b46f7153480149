-- ===== src/Regex/Engine.antt =====
-- The backtracking matcher, and `search`, `match`, `group` and `sub`.
use dyod_ws1718_sprint.Common.{
  ℕ, zero, suc, ◌-◌, Bool, true, false, not, Option, none, some, is_some, List, [], ◌∷◌, ◌++◌,
  reverse, length, take, ltb, ◌==◌, if◌then◌else◌,
}
use dyod_ws1718_sprint.Text.{Str, is_word_char}
use dyod_ws1718_sprint.Regex.Syntax.{
  Re, empty, fails, bol, eol, word_boundary, chr, seq, alt, star, look, set_has,
}
use dyod_ws1718_sprint.Regex.Syntax
use dyod_ws1718_sprint.Regex.Compile.{compile}

-- A place in the text: what stands before it, reversed, what follows, and the groups so far.
pub record Place : Type 0 where
  pub before : Str
  pub rest : Str
  pub groups : List (ℕ × Str)

unfoldable pub first_is_word : Str → Bool
first_is_word [] = false
first_is_word (c ∷ s) = is_word_char c

unfoldable pub at_boundary : Place → Bool
at_boundary s = if first_is_word s.before then not (first_is_word s.rest) else first_is_word s.rest

unfoldable pub at_start : Str → Bool
at_start [] = true
at_start (c ∷ s) = false

-- `$`: at the end, or before a newline that ends the text
unfoldable pub at_end : Str → Bool
at_end [] = true
at_end (c ∷ []) = c == b'\n'
at_end (c ∷ d ∷ s) = false

abbrev pub Cont : Type 0
Cont = Place → Option Place

-- A round of a repetition consumes something, so the fuel, one more than what is left, is enough.
unfoldable pub star_loop : ℕ → Bool → (Place → Cont → Option Place) → Place → Cont → Option Place
star_loop zero greedy body s k = k s
star_loop (suc fuel) greedy body s k =
    let more : Option Place = body s (λ t. elim (ltb (length t.rest) (length s.rest)) [
      | true ↦ star_loop fuel greedy body t k
      | false ↦ none
    ]) in
    let stop : Option Place = k s in
    elim greedy [
      | true ↦ elim more [ some t ↦ some t | none ↦ stop ]
      | false ↦ elim stop [ some t ↦ some t | none ↦ more ]
    ]

unfoldable pub match_chr : Syntax.CharSet → Place → Str → Cont → Option Place
match_chr set s [] k = none
match_chr set s (c ∷ cs) k = elim (set_has set c) [
  | true ↦ k (record s { before = c ∷ s.before; rest = cs })
  | false ↦ none
]

unfoldable pub group_in : ℕ → List (ℕ × Str) → Option Str
group_in n [] = none
group_in n ((k, t) ∷ gs) = if k == n then some t else group_in n gs

-- The text behind `t`, which the text has to start with.
unfoldable pub match_text : Str → Place → Str → Cont → Option Place
match_text [] s rest k = k s
match_text (d ∷ t) s [] k = none
match_text (d ∷ t) s (c ∷ cs) k = elim (c == d) [
  | true ↦ match_text t (record s { before = c ∷ s.before; rest = cs }) cs k
  | false ↦ none
]

unfoldable pub match_re : Re → Place → Cont → Option Place
match_re empty s k = k s
match_re fails s k = none
match_re bol s k = elim (at_start s.before) [ true ↦ k s | false ↦ none ]
match_re eol s k = elim (at_end s.rest) [ true ↦ k s | false ↦ none ]
match_re word_boundary s k = elim (at_boundary s) [ true ↦ k s | false ↦ none ]
match_re (chr set) s k = match_chr set s s.rest k
match_re (seq a b) s k = match_re a s (λ t. match_re b t k)
match_re (alt a b) s k =
    let second : Option Place = match_re b s k in
    elim (match_re a s k) [ some t ↦ some t | none ↦ second ]
match_re (star greedy r) s k = star_loop (suc (length s.rest)) greedy (match_re r) s k
match_re (Syntax.group n r) s k =
    match_re r s
      (λ t. k (record t { groups = (n, take (length s.rest - length t.rest) s.rest) ∷ t.groups }))
match_re (Syntax.back n) s k = elim (group_in n s.groups) [
  | none ↦ none
  | some t ↦ match_text t s s.rest k
]
match_re (look positive r) s k = elim (match_re r s some) [
  | some t ↦ elim positive [ true ↦ k s | false ↦ none ]
  | none ↦ elim positive [ true ↦ none | false ↦ k s ]
]

-- A match object: the text before the match, the match, the text behind it, and the groups.
pub record Found : Type 0 where
  pub before : Str
  pub matched : Str
  pub after : Str
  pub groups : List (ℕ × Str)

unfoldable pub match_here : Re → Str → Str → Option Found
match_here r before rest =
    elim (match_re r (record { before = before; rest = rest; groups = [] }) some) [
      | none ↦ none
      | some t ↦ some (record {
        before = reverse before;
        matched = take (length rest - length t.rest) rest;
        after = t.rest;
        groups = t.groups;
      })
    ]

scan : Re → Str → Str → Option Found
scan r before [] = match_here r before []
scan r before (c ∷ cs) =
    let later = scan r (c ∷ before) cs in
    elim (match_here r before (c ∷ cs)) [ some m ↦ some m | none ↦ later ]

-- `Search(pattern, s)`
unfoldable pub search : Str → Str → Option Found
unfolding match_text group_in first_is_word at_boundary at_start at_end star_loop match_chr match_re
    match_here scan set_has compile is_word_char
search pattern s = elim (compile pattern) [ none ↦ none | some r ↦ scan r [] s ]

-- `Match(pattern, s)`: at the start only
unfoldable pub match_start : Str → Str → Option Found
unfolding search match_here
match_start pattern s = elim (compile pattern) [ none ↦ none | some r ↦ match_here r [] s ]

-- The same as tests.
abbrev pub searches : Str → Str → Bool
searches pattern s = is_some (search pattern s)

abbrev pub matches : Str → Str → Bool
matches pattern s = is_some (match_start pattern s)

-- `m.group(n)` for `n` above 0; `none` for a group that took no part in the match.
unfoldable pub group : ℕ → Found → Option Str
unfolding group_in
group n m = group_in n m.groups

-- `m.group(n)` where the pattern cannot match without its group `n`.
unfoldable pub group_or : ℕ → Found → Str
unfolding group
group_or n m = elim (group n m) [ none ↦ [] | some t ↦ t ]

-- The matches of `finditer`, from the left, for a pattern that does not match the empty text; `skip`
-- counts the characters of the last match that are still to be passed over.
found_from : Re → ℕ → Str → Str → List Found
found_from r skip before [] = []
found_from r (suc skip) before (c ∷ cs) = found_from r skip (c ∷ before) cs
found_from r zero before (c ∷ cs) = elim (match_here r before (c ∷ cs)) [
  | none ↦ found_from r zero (c ∷ before) cs
  | some m ↦ m ∷ found_from r (length m.matched - 1) (c ∷ before) cs
]

unfoldable pub find_all : Str → Str → List Found
unfolding search found_from match_here
find_all pattern s = elim (compile pattern) [ none ↦ [] | some r ↦ found_from r 0 [] s ]

-- Every match is replaced, from the left; `skip` counts the characters of the last match that are
-- still to be passed over. None of the linter's patterns matches the empty text here.
sub_from : Re → Str → ℕ → Str → Str → Str
sub_from r new skip before [] = []
sub_from r new (suc skip) before (c ∷ cs) = sub_from r new skip (c ∷ before) cs
sub_from r new zero before (c ∷ cs) =
    let keep = c ∷ sub_from r new zero (c ∷ before) cs in
    elim (match_here r before (c ∷ cs)) [
      | none ↦ keep
      | some m ↦ elim m.matched [
        | [] ↦ keep
        | _ ∷ more ↦ new ++ sub_from r new (length more) (c ∷ before) cs
      ]
    ]

-- `ReplaceAll(pattern, new, s)`, for a `new` with no backslash and a pattern that compiles, as the
-- fixed ones of the source do
unfoldable pub sub : Str → Str → Str → Str
unfolding search sub_from match_here
sub pattern new s = elim (compile pattern) [ none ↦ s | some r ↦ sub_from r new 0 [] s ]
