-- ===== src/Nesting/Total.antt =====
-- `InTemplateArgumentList` ends, and `NestingState.Update` raises nothing at a line of the file.
use dyod_ws1718_sprint.Common.{
  ℕ, zero, suc, ◌<◌, ◌≡◌, refl, arith, false, not, Option, none, some, List, [], length, drop,
  get_or, ltb, if_elim,
}
use dyod_ws1718_sprint.Text.{Str}
use dyod_ws1718_sprint.Regex.{Found, group_or}
use dyod_ws1718_sprint.Report.{Result, ok, raised, ◌>>=◌}
use dyod_ws1718_sprint.Nesting.Blocks.{BlockInfo}
use dyod_ws1718_sprint.Nesting.Preprocessor.{NestingState}
use dyod_ws1718_sprint.Nesting.Template.{
  Look, answered, look_at, look_round, look_loop, rounds_of, in_template_argument_list,
}
use dyod_ws1718_sprint.Nesting.Heads.{is_balanced, enter_class}
use dyod_ws1718_sprint.Nesting.Update.{update_line, update}
use dyod_ws1718_sprint.Nesting.Rounds.{
  left, left-le-rounds, MovesOn, look_round-MovesOn, get_elem?-get_or,
}

-- A result that is no exception.
unfoldable pub IsOk {ℓ} : {A : Type ℓ} → Result A → Type ℓ
IsOk {A = A} r = (a : A) × (r ≡ ok a)

IsOk-bind {ℓ κ} :
    {A : Type ℓ} {B : Type κ} (r : Result A) (f : A → Result B)
    → IsOk r
    → ((a : A) → IsOk (f a))
    → IsOk (r >>= f)
unfolding IsOk
IsOk-bind (ok a) f h k = k a
IsOk-bind (raised e) f (a, h) k = cc

look_bind :
    (fuel : ℕ) (elided : List Str) (now : ℕ) (r : Result Look)
    → MovesOn elided now r
    → ((n pos : ℕ) → left (drop n elided) pos < now → IsOk (look_loop fuel elided n pos))
    → IsOk (
        r >>= λ look. elim look [ answered b ↦ ok b | look_at n pos ↦ look_loop fuel elided n pos ])
unfolding MovesOn IsOk
look_bind fuel elided now (ok (answered b)) h k = (b, refl)
look_bind fuel elided now (ok (look_at n pos)) h k = k n pos h
look_bind fuel elided now (raised e) h k = absurd h

-- With fuel above what is left to look at, the loop ends with an answer.
look_loop-IsOk :
    (fuel : ℕ) (elided : List Str) (n pos : ℕ)
    → left (drop n elided) pos < fuel
    → IsOk (look_loop fuel elided n pos)
unfolding look_loop IsOk
look_loop-IsOk zero elided n pos h = elim h [ ]
look_loop-IsOk (suc fuel) elided n pos h =
    if_elim IsOk (not (ltb n (length elided))) (λ e. (false, refl))
      (λ e.
        look_bind fuel elided (left (drop n elided) pos) (look_round elided n pos)
          (look_round-MovesOn elided n pos (ground arith))
          (λ m p l. look_loop-IsOk fuel elided m p (omega (arith, l, h))))

-- From any line and position `InTemplateArgumentList` ends with an answer: its loop does not go on
-- without end, and no round of it raises an exception.
pub in_template_argument_list-IsOk :
    (elided : List Str) (n pos : ℕ) → IsOk (in_template_argument_list elided n pos)
unfolding in_template_argument_list
in_template_argument_list-IsOk elided n pos =
    look_loop-IsOk (rounds_of elided) elided n pos (left-le-rounds elided n pos)

enter_class-IsOk :
    (raw_lines elided : List Str) (n : ℕ) (line : Str) (stack : List BlockInfo) (o : Option Found)
    → IsOk (enter_class raw_lines elided n line stack o)
unfolding enter_class IsOk
enter_class-IsOk raw_lines elided n line stack none = ((line, stack), refl)
enter_class-IsOk raw_lines elided n line stack (some m) =
    if_elim IsOk (not (is_balanced stack)) (λ e. ((line, stack), refl))
      (λ e.
        IsOk-bind (in_template_argument_list elided n (length (group_or 1 m))) _
          (in_template_argument_list-IsOk elided n (length (group_or 1 m))) (λ b. (_, refl)))

pub update_line-IsOk :
    (raw_lines elided : List Str) (n : ℕ) (line : Str) (s : NestingState)
    → IsOk (update_line raw_lines elided n line s)
unfolding update_line IsOk
update_line-IsOk raw_lines elided n line s =
    IsOk-bind (enter_class raw_lines elided n _ _ _) _ (enter_class-IsOk raw_lines elided n _ _ _)
      (λ a. (_, refl))

-- At a line of the file `Update` raises no exception, whatever the state.
pub update-IsOk :
    (raw_lines elided : List Str) (n : ℕ) (s : NestingState)
    → n < length elided
    → IsOk (update raw_lines elided n s)
unfolding update
update-IsOk raw_lines elided n s h =
    rw (get_elem?-get_or elided n h, update)
      (update_line-IsOk raw_lines elided n (get_or elided n []) s)
