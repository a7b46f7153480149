-- ===== src/Nesting/Preprocessor.antt =====
-- `NestingState.UpdatePreprocessor`.
use dyod_ws1718_sprint.Common.{Bool, true, false, List, [], ◌∷◌, if◌then◌else◌}
use dyod_ws1718_sprint.Text.{Str, lit}
use dyod_ws1718_sprint.Regex.{matches}
use dyod_ws1718_sprint.Nesting.Blocks.{BlockInfo}

-- `_PreprocessorInfo`; every stack has its top first.
pub record PreprocessorInfo : Type 0 where
  pub stack_before_if : List BlockInfo
  pub stack_before_else : List BlockInfo
  pub seen_else : Bool

-- `previous_stack_top` is the top of the stack before the last `Update`: Nesting/Indentation reads it
-- from the state before the line.
pub record NestingState : Type 0 where
  pub stack : List BlockInfo
  pub pp_stack : List PreprocessorInfo

-- `__init__`
unfoldable pub initial : NestingState
initial = record { stack = []; pp_stack = [] }

unfoldable pub begin_if : NestingState → NestingState
begin_if s = record s {
  pp_stack =
      record { stack_before_if = s.stack; stack_before_else = []; seen_else = false } ∷ s.pp_stack;
}

unfoldable pub begin_else : List PreprocessorInfo → NestingState → NestingState
begin_else [] s = s
begin_else (p ∷ pps) s = record {
  stack = p.stack_before_if;
  pp_stack =
      (if p.seen_else then p else record p { stack_before_else = s.stack; seen_else = true }) ∷ pps;
}

unfoldable pub end_if : List PreprocessorInfo → NestingState → NestingState
end_if [] s = s
end_if (p ∷ pps) s = record {
  stack = if p.seen_else then p.stack_before_else else s.stack;
  pp_stack = pps;
}

abbrev pub if_pattern : Str
if_pattern = lit "^\\s*#\\s*(if|ifdef|ifndef)\\b"

abbrev pub else_pattern : Str
else_pattern = lit "^\\s*#\\s*(else|elif)\\b"

abbrev pub endif_pattern : Str
endif_pattern = lit "^\\s*#\\s*endif\\b"

-- `UpdatePreprocessor`. The deep copies that the source takes are values here.
unfoldable pub update_preprocessor : Str → NestingState → NestingState
unfolding begin_if begin_else end_if
update_preprocessor line s =
    if matches if_pattern line
    then begin_if s
    else if matches else_pattern line
    then begin_else s.pp_stack s
    else if matches endif_pattern line
    then end_if s.pp_stack s
    else s
