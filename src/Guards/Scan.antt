-- ===== src/Guards/Scan.antt =====
-- The loop of `CheckForHeaderGuard` over the lines: which names and which line it finds.
use dyod_ws1718_sprint.Common.{ℕ, suc, ◌≡◌, refl, arith, List, [], ◌∷◌, if◌then◌else◌}
use dyod_ws1718_sprint.Text.{Str, lit, str_eq, starts_with, is_empty, words, is_empty-nil}
use dyod_ws1718_sprint.Guards.{Guard, see_ifndef, see_define, see_words, see_endif, scan_guard}

-- The name behind a directive, if the line is that directive with a name.
unfoldable pub named_by : Str → List Str → Str
named_by directive [] = []
named_by directive (d ∷ []) = []
named_by directive (d ∷ name ∷ more) = if str_eq d directive then name else []

-- The name at the first line that is the directive with a name; empty where there is none.
unfoldable pub first_name : Str → List Str → Str
unfolding named_by
first_name directive [] = []
first_name directive (line ∷ lines) =
    let later = first_name directive lines in
    if is_empty (named_by directive (words line)) then later else named_by directive (words line)

-- The last line that starts with `#endif`, or `before` where there is none.
unfoldable pub last_endif : Str → List Str → Str
last_endif before [] = before
last_endif before (line ∷ lines) =
    last_endif (if starts_with line (lit "#endif") then line else before) lines

see_words-ifndef :
    (n : ℕ) (ws : List Str) (g : Guard)
    → (see_words n ws g).ifndef
      ≡ (if is_empty g.ifndef then named_by (lit "#ifndef") ws else g.ifndef)
unfolding see_words see_ifndef see_define named_by
see_words-ifndef n [] g = ground (arith, is_empty-nil g.ifndef)
see_words-ifndef n (d ∷ []) g = ground (arith, is_empty-nil g.ifndef)
see_words-ifndef n (d ∷ name ∷ more) g = ground (arith, is_empty-nil g.ifndef)

see_words-define :
    (n : ℕ) (ws : List Str) (g : Guard)
    → (see_words n ws g).define
      ≡ (if is_empty g.define then named_by (lit "#define") ws else g.define)
unfolding see_words see_ifndef see_define named_by
see_words-define n [] g = ground (arith, is_empty-nil g.define)
see_words-define n (d ∷ []) g = ground (arith, is_empty-nil g.define)
see_words-define n (d ∷ name ∷ more) g = ground (arith, is_empty-nil g.define)

see_words-endif : (n : ℕ) (ws : List Str) (g : Guard) → (see_words n ws g).endif ≡ g.endif
unfolding see_words see_ifndef see_define
see_words-endif n [] g = refl
see_words-endif n (d ∷ []) g = refl
see_words-endif n (d ∷ name ∷ more) g = ground arith

-- What a line leaves of the three fields.
abbrev after : ℕ → Str → Guard → Guard
after n line g = see_endif n line (see_words n (words line) g)

after_lem :
    (n : ℕ) (line : Str) (g : Guard)
    → ((after n line g).ifndef
        ≡ (if is_empty g.ifndef then named_by (lit "#ifndef") (words line) else g.ifndef))
      × ((after n line g).define
          ≡ (if is_empty g.define then named_by (lit "#define") (words line) else g.define))
      × ((after n line g).endif ≡ (if starts_with line (lit "#endif") then line else g.endif))
unfolding see_endif
after_lem n line g = ground (
  arith,
  see_words-ifndef n (words line) g,
  see_words-define n (words line) g,
  see_words-endif n (words line) g,
)

-- From any values of its variables, the loop keeps a name that it has, or else takes the first one
-- that follows its directive; and it takes the last line that starts with `#endif`.
pub scan_guard_lem :
    (n : ℕ) (lines : List Str) (g : Guard)
    → ((scan_guard n lines g).ifndef
        ≡ (if is_empty g.ifndef then first_name (lit "#ifndef") lines else g.ifndef))
      × ((scan_guard n lines g).define
          ≡ (if is_empty g.define then first_name (lit "#define") lines else g.define))
      × ((scan_guard n lines g).endif ≡ last_endif g.endif lines)
unfolding scan_guard first_name last_endif
scan_guard_lem n [] g = ground (arith, is_empty-nil g.ifndef, is_empty-nil g.define)
scan_guard_lem n (line ∷ lines) g = ground (
  arith,
  after_lem n line g,
  scan_guard_lem (suc n) lines (after n line g),
  is_empty-nil g.ifndef,
  is_empty-nil g.define,
)
