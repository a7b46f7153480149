-- ===== src/Nesting/Restore.antt =====
-- Conditional regions: after `#endif` the nesting goes on from the first branch.
use dyod_ws1718_sprint.Common.{◌≡◌, refl, ap, ◌∙◌, arith, true, false, List, [], ◌∷◌, if◌then◌else◌}
use dyod_ws1718_sprint.Text.{Str}
use dyod_ws1718_sprint.Regex.{matches}
use dyod_ws1718_sprint.Nesting.Blocks.{BlockInfo}
use dyod_ws1718_sprint.Nesting.Preprocessor.{
  PreprocessorInfo, NestingState, begin_if, begin_else, end_if, if_pattern, else_pattern,
  endif_pattern, update_preprocessor,
}

-- `whole` is a piece of a file with complete regions, `branches` what follows the first branch of a
-- region, up to its end.
pub data Part : Type 0 where
  whole branches : Part

-- How a piece of a file leads from one state to another: any line may change the stack of blocks,
-- and a conditional line changes the state by `UpdatePreprocessor`.
pub data Trace : Part → NestingState → NestingState → Type 0 where
  done : {s : NestingState} → Trace whole s s
  change :
      {s u : NestingState} (t : List BlockInfo)
      → Trace whole (record s { stack = t }) u
      → Trace whole s u
  region :
      {s a b u : NestingState} (line : Str)
      → matches if_pattern line ≡ true
      → Trace whole (update_preprocessor line s) a
      → Trace branches a b
      → Trace whole b u
      → Trace whole s u
  branch :
      {a c b : NestingState} (line : Str)
      → matches if_pattern line ≡ false
      → matches else_pattern line ≡ true
      → Trace whole (update_preprocessor line a) c
      → Trace branches c b
      → Trace branches a b
  ended :
      {a b : NestingState} (line : Str)
      → matches if_pattern line ≡ false
      → matches else_pattern line ≡ false
      → matches endif_pattern line ≡ true
      → b ≡ update_preprocessor line a
      → Trace branches a b

-- Complete regions leave the preprocessor stack alone. The rest of a region drops its entry, and
-- takes the stack that the entry holds from an earlier `#else`, or else keeps the stack.
pub Leads : Part → NestingState → NestingState → Type 0
Leads whole s u = u.pp_stack ≡ s.pp_stack
Leads branches a b =
    (p : PreprocessorInfo) (pps : List PreprocessorInfo)
    → a.pp_stack ≡ p ∷ pps
    → (b.pp_stack ≡ pps) × (b.stack ≡ (if p.seen_else then p.stack_before_else else a.stack))

opened :
    (line : Str) (s : NestingState)
    → matches if_pattern line ≡ true
    → update_preprocessor line s ≡ begin_if s
unfolding update_preprocessor
opened line s e = rw e refl

switched :
    (line : Str) (s : NestingState)
    → matches if_pattern line ≡ false
    → matches else_pattern line ≡ true
    → update_preprocessor line s ≡ begin_else s.pp_stack s
unfolding update_preprocessor
switched line s e f = rw (e, f) refl

closed :
    (line : Str) (s : NestingState)
    → matches if_pattern line ≡ false
    → matches else_pattern line ≡ false
    → matches endif_pattern line ≡ true
    → update_preprocessor line s ≡ end_if s.pp_stack s
unfolding update_preprocessor
closed line s e f g = rw (e, f, g) refl

abbrev entry : NestingState → PreprocessorInfo
entry s = record { stack_before_if = s.stack; stack_before_else = []; seen_else = false }

begin_if-pp_stack : (s : NestingState) → (begin_if s).pp_stack ≡ entry s ∷ s.pp_stack
unfolding begin_if
begin_if-pp_stack s = refl

-- The entry behind an `#else`, from the one before it.
abbrev else_entry : PreprocessorInfo → NestingState → PreprocessorInfo
else_entry p s =
    if p.seen_else then p else record p { stack_before_else = s.stack; seen_else = true }

begin_else-pp_stack :
    (p : PreprocessorInfo) (pps : List PreprocessorInfo) (s : NestingState)
    → (begin_else (p ∷ pps) s).pp_stack ≡ else_entry p s ∷ pps
unfolding begin_else
begin_else-pp_stack p pps s = refl

else_entry-stack :
    (p : PreprocessorInfo) (s : NestingState) (t : List BlockInfo)
    → (if (else_entry p s).seen_else then (else_entry p s).stack_before_else else t)
      ≡ (if p.seen_else then p.stack_before_else else s.stack)
else_entry-stack p s t = ground arith

end_if_lem :
    (p : PreprocessorInfo) (pps : List PreprocessorInfo) (s : NestingState)
    → ((end_if (p ∷ pps) s).pp_stack ≡ pps)
      × ((end_if (p ∷ pps) s).stack ≡ (if p.seen_else then p.stack_before_else else s.stack))
unfolding end_if
end_if_lem p pps s = (refl, refl)

pub Trace→Leads : {k : Part} {s u : NestingState} → Trace k s u → Leads k s u
unfolding Leads
Trace→Leads done = refl
Trace→Leads (change t r) = Trace→Leads r
Trace→Leads {s = s} (region line e r q w) =
    Trace→Leads w
    ∙ (Trace→Leads q (entry s) s.pp_stack
        (Trace→Leads r ∙ (ap (λ x. x.pp_stack) (opened line s e) ∙ begin_if-pp_stack s))).0
Trace→Leads {s = a} (branch {c = c} line e f r q) = λ p pps h.
    let (x, y) = Trace→Leads q (else_entry p a) pps (
      Trace→Leads r
      ∙ (ap (λ x. x.pp_stack) (switched line a e f)
          ∙ (ap (λ st. (begin_else st a).pp_stack) h ∙ begin_else-pp_stack p pps a))) in
    (x, y ∙ else_entry-stack p a c.stack)
Trace→Leads {s = a} (ended line e f g h) = λ p pps k.
    let same = h ∙ (closed line a e f g ∙ ap (λ st. end_if st a) k) in
    (
      ap (λ x. x.pp_stack) same ∙ (end_if_lem p pps a).0,
      ap (λ x. x.stack) same ∙ (end_if_lem p pps a).1,
    )

-- After a conditional region, with regions inside it and however its lines change the stack of
-- blocks, the preprocessor stack is the one before the region, and the stack of blocks is the one at
-- the end of the region's first branch.
pub region-Leads :
    (s a b : NestingState) (line : Str)
    → matches if_pattern line ≡ true
    → Trace whole (update_preprocessor line s) a
    → Trace branches a b
    → (b.pp_stack ≡ s.pp_stack) × (b.stack ≡ a.stack)
unfolding Leads
region-Leads s a b line e r q =
    Trace→Leads q (entry s) s.pp_stack
      (Trace→Leads r ∙ (ap (λ x. x.pp_stack) (opened line s e) ∙ begin_if-pp_stack s))
