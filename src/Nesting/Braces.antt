-- ===== src/Nesting/Braces.antt =====
-- The loops of `NestingState.Update`: they end by their own tests.
use dyod_ws1718_sprint.Common.{
  ℕ, zero, suc, ◌+◌, ◌<◌, ◌≡◌, refl, arith, true, none, some, List, [], ◌∷◌, ◌++◌, length,
  length-drop, Option-cases, inl, inr, All, append_assoc, ◌∙◌, sym, All-append,
}
use dyod_ws1718_sprint.Text.{Str, lit, find}
use dyod_ws1718_sprint.Regex.{Found, match_start, group_or, compile}
use dyod_ws1718_sprint.Regex.Measures.{is_flat, least_outside, least_group}
use dyod_ws1718_sprint.Regex.Bounds.{match_start-groups, match_start-floor}
use dyod_ws1718_sprint.Report.{Report}
use dyod_ws1718_sprint.Nesting.Blocks.{BlockInfo, namespace_, new_namespace, new_block}
use dyod_ws1718_sprint.Nesting.Heads.{namespace_pattern, enter_namespace, consume_namespaces}
use dyod_ws1718_sprint.Nesting.Update.{brace_pattern, brace_step, consume_braces}

module _ (raw_lines elided : List Str) (linenum : ℕ) where
  -- What the braces, semicolons and closing parentheses of a line make of the stack, one after
  -- another from the left, and the reports of their steps in this order.
  pub data Consumes : Str → List BlockInfo → List BlockInfo × List Report → Type 0 where
    stop :
        {line : Str} {stack : List BlockInfo}
        → match_start brace_pattern line ≡ none
        → Consumes line stack (stack, [])
    token :
        {line : Str} {stack : List BlockInfo} {r : List BlockInfo × List Report} (m : Found)
        → match_start brace_pattern line ≡ some m
        → Consumes
            (group_or 2 m)
            (brace_step raw_lines elided linenum line (group_or 1 m) stack).0
            r
        → Consumes line stack
            (r.0, (brace_step raw_lines elided linenum line (group_or 1 m) stack).1 ++ r.1)

brace_pattern-flat : is_flat brace_pattern ≡ true
unfolding is_flat compile lit
brace_pattern-flat = refl

brace_pattern-floor : least_group 1 brace_pattern ≡ 1
unfolding least_group compile lit
brace_pattern-floor = refl

brace-shorter :
    (line : Str) (m : Found)
    → match_start brace_pattern line ≡ some m
    → length (group_or 2 m) < length line
brace-shorter line m e = omega (
  arith,
  match_start-floor line m brace_pattern 1 e brace_pattern-flat,
  brace_pattern-floor,
  match_start-groups line m brace_pattern 1 2 3 (omega arith) (omega arith) (omega arith) e
      brace_pattern-flat,
)

-- With fuel above the length of the line the loop over the braces ends where no brace is left, with
-- what the tokens of the line make of the stack, each in its turn.
pub consume_braces-Consumes :
    (raw_lines elided : List Str) (linenum fuel : ℕ) (line : Str) (stack : List BlockInfo)
    → length line < fuel
    → Consumes raw_lines elided linenum line stack
        (consume_braces fuel raw_lines elided linenum line stack)
unfolding consume_braces
consume_braces-Consumes raw_lines elided linenum zero line stack h = absurd (omega arith)
consume_braces-Consumes raw_lines elided linenum (suc fuel) line stack h =
    elim (Option-cases (match_start brace_pattern line)) [
      | inl e ↦ rw (e, consume_braces) (Consumes.stop e)
      | inr (m, e) ↦
          rw (e, consume_braces)
            (Consumes.token m e (
              consume_braces-Consumes raw_lines elided linenum fuel (group_or 2 m)
                (brace_step raw_lines elided linenum line (group_or 1 m) stack).0
                (omega (arith, brace-shorter line m e))))
    ]

namespace_pattern-flat : is_flat namespace_pattern ≡ true
unfolding is_flat compile lit
namespace_pattern-flat = refl

namespace_pattern-outside : least_outside namespace_pattern ≡ 9
unfolding least_outside compile lit
namespace_pattern-outside = refl

namespace-shorter :
    (linenum : ℕ) (line : Str) (m : Found)
    → match_start namespace_pattern line ≡ some m
    → length (enter_namespace linenum m).0 < length line
unfolding enter_namespace
namespace-shorter linenum line m e =
    let bound =
      match_start-groups line m namespace_pattern 1 2 3 (omega arith) (omega arith) (omega arith) e
        namespace_pattern-flat in
    elim (Option-cases (find (group_or 2 m) (lit "{"))) [
      | inl f ↦ ground (arith, bound, namespace_pattern-outside)
      | inr (i, f) ↦
          ground (arith, bound, namespace_pattern-outside, length-drop (i + 1) (group_or 2 m))
    ]

-- A namespace that the line opened.
pub IsOpened : ℕ → BlockInfo → Type 0
IsOpened linenum b = (name : Str) × (b.kind ≡ namespace_ name) × (b.starting_linenum ≡ linenum)

enter_namespace-IsOpened :
    (linenum : ℕ) (m : Found) → IsOpened linenum (enter_namespace linenum m).1
unfolding IsOpened enter_namespace new_namespace new_block
enter_namespace-IsOpened linenum m = elim (Option-cases (find (group_or 2 m) (lit "{"))) [
  | inl f ↦ (group_or 1 m, rw (f, enter_namespace) refl, rw (f, enter_namespace) refl)
  | inr (i, f) ↦ (group_or 1 m, rw (f, enter_namespace) refl, rw (f, enter_namespace) refl)
]

-- The namespaces lie on the stack that was there, and none follows on what is left of the line.
pub record Entered (linenum : ℕ) (stack : List BlockInfo) (r : Str × List BlockInfo) : Type 0 where
  pub none_left : match_start namespace_pattern r.0 ≡ none
  pub added : List BlockInfo
  pub on_top : r.1 ≡ added ++ stack
  pub namespaces : All (IsOpened linenum) added

Entered-more :
    (linenum : ℕ) (b : BlockInfo) (stack : List BlockInfo) (r : Str × List BlockInfo)
    → IsOpened linenum b
    → Entered linenum (b ∷ stack) r
    → Entered linenum stack r
Entered-more linenum b stack r o h = record {
  none_left = h.none_left;
  added = h.added ++ b ∷ [];
  on_top = h.on_top ∙ sym (append_assoc h.added (b ∷ []) stack);
  namespaces = All-append (IsOpened linenum) h.added (b ∷ []) h.namespaces (o, tt);
}

-- With fuel above the length of the line the loop over the namespaces ends where no namespace
-- declaration starts what is left of the line; it put namespaces of this line on the stack.
pub consume_namespaces-Entered :
    (fuel linenum : ℕ) (line : Str) (stack : List BlockInfo)
    → length line < fuel
    → Entered linenum stack (consume_namespaces fuel linenum line stack)
unfolding consume_namespaces
consume_namespaces-Entered zero linenum line stack h = absurd (omega arith)
consume_namespaces-Entered (suc fuel) linenum line stack h =
    elim (Option-cases (match_start namespace_pattern line)) [
      | inl e ↦
          rw (e, consume_namespaces)
            (record { none_left = e; added = []; on_top = refl; namespaces = tt })
      | inr (m, e) ↦
          rw (e, consume_namespaces)
            (Entered-more linenum (enter_namespace linenum m).1 stack _
              (enter_namespace-IsOpened linenum m)
              (consume_namespaces-Entered fuel linenum (enter_namespace linenum m).0
                ((enter_namespace linenum m).1 ∷ stack)
                (omega (arith, namespace-shorter linenum line m e))))
    ]
