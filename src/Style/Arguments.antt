-- ===== src/Style/Arguments.antt =====
-- The arguments of a constructor, as `CheckForNonStandardConstructs` puts them together.
use dyod_ws1718_sprint.Common.{
  ℕ, zero, suc, ◌≤◌, ◌<◌, ◌≡◌, ◌⊎◌, refl, ap, sym, subst, ◌∙◌, arith, true, false, List, [], ◌∷◌,
  ◌++◌, length, take, map, append_assoc, append-nil, length-append, All, inl, inr, Bool-cases,
  dec_lt,
}
use dyod_ws1718_sprint.Text.{Str, lit, join, count}
use dyod_ws1718_sprint.Report.{Result, ok, raised, ◌>>=◌, index_error}
use dyod_ws1718_sprint.Style.Constructs.{is_cut, join_args}

-- More brackets of a kind are opened than closed.
abbrev pub LeavesOpen : Str → Type 0
LeavesOpen text =
    (count text (lit ">") < count text (lit "<")) ⊎ (count text (lit ")") < count text (lit "("))

abbrev pub Closes : Str → Type 0
Closes text =
    (count text (lit "<") ≤ count text (lit ">")) × (count text (lit "(") ≤ count text (lit ")"))

abbrev pub together : List Str → Str
together parts = join (lit ",") parts

-- The first parts, short of all, leave a bracket open.
abbrev pub IsOpenBefore : List Str → Type 0
IsOpenBefore group = (n : ℕ) → 0 < n → n < length group → LeavesOpen (together (take n group))

-- The parts of one argument: no more of them than it takes to close the brackets.
pub record IsArgument (group : List Str) : Type 0 where
  pub some_part : 0 < length group
  pub early : IsOpenBefore group
  pub closed : Closes (together group)

unfoldable pub flat : List (List Str) → List Str
flat [] = []
flat (group ∷ groups) = group ++ flat groups

-- The parts are those of the arguments, one after another; or those of some arguments and some that
-- leave a bracket open wherever one stops.
pub data Joined (parts : List Str) : Result (List Str) → Type 0 where
  whole :
      (groups : List (List Str))
      → All IsArgument groups
      → flat groups ≡ parts
      → Joined parts (ok (map together groups))
  cut_off :
      (groups : List (List Str)) (last : List Str)
      → All IsArgument groups
      → 0 < length last
      → ((n : ℕ) → 0 < n → n ≤ length last → LeavesOpen (together (take n last)))
      → flat groups ++ last ≡ parts
      → Joined parts (raised index_error)

is_cut-LeavesOpen : (arg : Str) → is_cut arg ≡ true → LeavesOpen arg
unfolding is_cut
is_cut-LeavesOpen arg h = ground (arith, h)

is_cut-Closes : (arg : Str) → is_cut arg ≡ false → Closes arg
unfolding is_cut
is_cut-Closes arg h = ground (arith, h)

take-front : (n : ℕ) (xs ys : List Str) → n ≤ length xs → take n (xs ++ ys) ≡ take n xs
take-front zero xs ys h = refl
take-front (suc n) [] ys h = elim h [ ]
take-front (suc n) (x ∷ xs) ys h = ap (λ t. x ∷ t) (take-front n xs ys (omega (arith, h)))

take-length : (xs : List Str) → take (length xs) xs ≡ xs
take-length [] = refl
take-length (x ∷ xs) = ap (λ t. x ∷ t) (take-length xs)

together-snoc :
    (front : List Str) (next : Str)
    → 0 < length front
    → together (front ++ next ∷ []) ≡ together front ++ b',' ∷ next
unfolding join lit
together-snoc [] next h = elim h [ ]
together-snoc (a ∷ []) next h = append_assoc a (b',' ∷ []) next
together-snoc (a ∷ b ∷ front) next h =
    ap (λ t. (a ++ b',' ∷ []) ++ t) (together-snoc (b ∷ front) next (omega arith))
    ∙ sym (append_assoc (a ++ b',' ∷ []) (together (b ∷ front)) (b',' ∷ next))

-- A text that is cut leaves a bracket open up to its end, too.
open_to :
    (front : List Str)
    → IsOpenBefore front
    → LeavesOpen (together front)
    → (n : ℕ) → 0 < n
    → n ≤ length front
    → LeavesOpen (together (take n front))
open_to front early opens n h k = elim (dec_lt n (length front)) [
  | yes l ↦ early n h l
  | no l ↦
      let same : n ≡ length front = omega (arith, k, l) in
      subst (λ t. LeavesOpen (together t)) (sym (ap (λ m. take m front) same ∙ take-length front))
        opens
]

early-snoc :
    (front : List Str) (next : Str)
    → IsOpenBefore front
    → LeavesOpen (together front)
    → IsOpenBefore (front ++ next ∷ [])
early-snoc front next early opens n h k =
    let short : n ≤ length front = omega (arith, k, length-append front (next ∷ [])) in
    subst (λ t. LeavesOpen (together t)) (sym (take-front n front (next ∷ []) short))
      (open_to front early opens n h short)

in_front :
    (front parts : List Str) (r : Result (List Str))
    → IsArgument front
    → Joined parts r
    → Joined (front ++ parts) (r >>= λ joined. ok (together front ∷ joined))
unfolding flat
in_front front parts _ a (Joined.whole groups h e) =
    Joined.whole (front ∷ groups) (a, h) (ap (λ l. front ++ l) e)
in_front front parts _ a (Joined.cut_off groups last h p o e) =
    Joined.cut_off (front ∷ groups) last (a, h) p o
      (append_assoc front (flat groups) last ∙ ap (λ l. front ++ l) e)

joined :
    (front args : List Str)
    → 0 < length front
    → IsOpenBefore front
    → Joined (front ++ args) (join_args (together front) args)
unfolding join_args flat join
joined front [] h early = elim (Bool-cases (is_cut (together front))) [
  | inl c ↦
      rw (c, join_args)
        (Joined.cut_off [] front tt h (open_to front early (is_cut-LeavesOpen (together front) c))
          (sym (append-nil front)))
  | inr c ↦
      rw (c, join_args)
        (Joined.whole (front ∷ [])
          (record { some_part = h; early = early; closed = is_cut-Closes (together front) c }, tt)
          refl)
]
joined front (next ∷ args) h early = elim (Bool-cases (is_cut (together front))) [
  | inl c ↦
      rw (c, join_args)
        (subst (λ ps. Joined ps (join_args (together front ++ b',' ∷ next) args))
          (append_assoc front (next ∷ []) args)
          (subst (λ t. Joined ((front ++ next ∷ []) ++ args) (join_args t args))
            (together-snoc front next h)
            (joined (front ++ next ∷ []) args (omega (arith, length-append front (next ∷ [])))
              (early-snoc front next early (is_cut-LeavesOpen (together front) c)))))
  | inr c ↦
      rw (c, join_args)
        (in_front front (next ∷ args) (join_args next args)
          (record { some_part = h; early = early; closed = is_cut-Closes (together front) c })
          (joined (next ∷ []) args (omega arith) (λ n p q. absurd (omega (arith, p, q)))))
]

-- The parts at the commas become the arguments, one after another and with no part lost: each
-- argument closes its angle brackets and its parentheses, and is put together from no more parts
-- than that takes. Where the brackets stay open to the end of the text the result is an
-- `IndexError`.
pub join_args-Joined : (arg : Str) (args : List Str) → Joined (arg ∷ args) (join_args arg args)
unfolding join
join_args-Joined arg args =
    joined (arg ∷ []) args (omega arith) (λ n p q. absurd (omega (arith, p, q)))
