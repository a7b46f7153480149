-- ===== src/Style/Macros/Rounds.antt =====
-- The loop of `CheckCheck` over the checked expression ends by its own tests.
use dyod_ws1718_sprint.Common.{
  ℕ, zero, suc, ◌≤◌, ◌<◌, ◌≡◌, ◌≢◌, ◌⊎◌, refl, arith, true, Option, none, some, [], ◌∷◌, ◌++◌,
  length, length-drop, Option-cases, inl, inr,
}
use dyod_ws1718_sprint.Text.{Str, lit}
use dyod_ws1718_sprint.Regex.{Found, match_start, group_or, compile}
use dyod_ws1718_sprint.Regex.Measures.{is_flat, least_group}
use dyod_ws1718_sprint.Regex.Bounds.{match_start-groups, match_start-floor}
use dyod_ws1718_sprint.Expr.{Bracketing, found, find_end_of_expression_in_line}
use dyod_ws1718_sprint.Style.Macros.{
  Round, operand, compared, ended, given_up, check_token_pattern, operand_pattern,
  character_pattern, parenthesized, token_round, operand_round, expression_round, split_expression,
}

parenthesized-length :
    (rest : Str) (b : Bracketing) (text behind : Str)
    → parenthesized rest b ≡ operand text behind
    → length behind ≤ length rest
unfolding parenthesized
parenthesized-length rest (found end) text behind h = ground (arith, length-drop end rest)
parenthesized-length rest b text behind h = cc

token_round-length :
    (token rest text behind : Str)
    → token_round token rest ≡ operand text behind
    → length behind ≤ length rest
unfolding token_round
token_round-length token rest text behind h = ground (
  arith,
  parenthesized-length rest (find_end_of_expression_in_line rest 0 (b'(' ∷ [])) text behind,
)

module _ (pattern : Str) (flat : is_flat pattern ≡ true) (floor : least_group 1 pattern ≡ 1) where
  -- A second group that stands behind one of at least a character is shorter than the text.
  second_shorter :
      (s : Str) (m : Found) → match_start pattern s ≡ some m → length (group_or 2 m) < length s
  second_shorter s m e = omega (
    arith,
    match_start-floor s m pattern 1 e flat,
    floor,
    match_start-groups s m pattern 1 2 3 (omega arith) (omega arith) (omega arith) e flat,
  )

token_shorter :
    (s : Str) (m : Found)
    → match_start check_token_pattern s ≡ some m
    → length (group_or 2 m) < length s
unfolding is_flat least_group compile lit
token_shorter s m e = second_shorter check_token_pattern refl refl s m e

operand_shorter :
    (s : Str) (m : Found)
    → match_start operand_pattern s ≡ some m
    → length (group_or 2 m) < length s
unfolding is_flat least_group compile lit
operand_shorter s m e = second_shorter operand_pattern refl refl s m e

character_shorter :
    (s : Str) (m : Found)
    → match_start character_pattern s ≡ some m
    → length (group_or 2 m) < length s
unfolding is_flat least_group compile lit
character_shorter s m e = second_shorter character_pattern refl refl s m e

operand_round-shorter :
    (s : Str) (text behind : Str)
    → operand_round (match_start operand_pattern s) (match_start character_pattern s)
      ≡ operand text behind
    → length behind < length s
unfolding operand_round
operand_round-shorter s text behind h = elim (Option-cases (match_start operand_pattern s)) [
  | inr (m, e) ↦ ground (arith, operand_shorter s m e)
  | inl e ↦ elim (Option-cases (match_start character_pattern s)) [
    | inr (m, f) ↦ ground (arith, character_shorter s m f)
    | inl f ↦ ground arith
  ]
]

-- An operand takes something from the expression.
round-shorter :
    (s : Str) (text behind : Str)
    → expression_round s ≡ operand text behind
    → length behind < length s
unfolding expression_round
round-shorter s text behind h = elim (Option-cases (match_start check_token_pattern s)) [
  | inr (m, e) ↦
      ground
        (arith, token_shorter s m e, token_round-length (group_or 1 m) (group_or 2 m) text behind)
  | inl e ↦ ground (arith, operand_round-shorter s text behind)
]

-- What the rounds make of the expression, one after another: the operands before the operator are
-- collected, and there is no result without an operator.
pub data Splits : Str → Str → Option (Str × Str × Str) → Type 0 where
  used_up : {lhs : Str} → Splits lhs [] none
  read :
      {lhs expression : Str} {r : Option (Str × Str × Str)} (text behind : Str)
      → expression ≢ []
      → expression_round expression ≡ operand text behind
      → Splits (lhs ++ text) behind r
      → Splits lhs expression r
  stopped :
      {lhs expression : Str} (token behind : Str)
      → expression ≢ []
      → expression_round expression ≡ compared token behind
      → Splits lhs expression (some (lhs, token, behind))
  left_off :
      {lhs expression : Str}
      → expression ≢ []
      → (expression_round expression ≡ ended) ⊎ (expression_round expression ≡ given_up)
      → Splits lhs expression none

-- A round, where the rest of the loop is right for a shorter expression.
split_round :
    (fuel : ℕ) (lhs : Str) (c : ℕ) (cs : Str) (r : Round)
    → expression_round (c ∷ cs) ≡ r
    → ((text behind : Str)
        → length behind < length (c ∷ cs)
        → Splits (lhs ++ text) behind (split_expression fuel (lhs ++ text) behind))
    → Splits lhs (c ∷ cs) (split_expression (suc fuel) lhs (c ∷ cs))
unfolding split_expression
split_round fuel lhs c cs (operand text behind) e next =
    rw (e, split_expression)
      (Splits.read text behind (λ k. cc) e
        (next text behind (round-shorter (c ∷ cs) text behind e)))
split_round fuel lhs c cs (compared token behind) e next =
    rw (e, split_expression) (Splits.stopped token behind (λ k. cc) e)
split_round fuel lhs c cs ended e next =
    rw (e, split_expression) (Splits.left_off (λ k. cc) (inl e))
split_round fuel lhs c cs given_up e next =
    rw (e, split_expression) (Splits.left_off (λ k. cc) (inr e))

-- With fuel above the length of the expression the loop of `CheckCheck` ends by its own tests, with
-- what its rounds make of the expression.
pub split_expression-Splits :
    (fuel : ℕ) (lhs expression : Str)
    → length expression < fuel
    → Splits lhs expression (split_expression fuel lhs expression)
unfolding split_expression
split_expression-Splits zero lhs expression h = absurd (omega arith)
split_expression-Splits (suc fuel) lhs [] h = Splits.used_up
split_expression-Splits (suc fuel) lhs (c ∷ cs) h =
    split_round fuel lhs c cs (expression_round (c ∷ cs)) refl (λ text behind shorter.
      split_expression-Splits fuel (lhs ++ text) behind (omega (arith, shorter)))
