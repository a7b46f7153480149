-- ===== src/Driver/Says.antt =====
-- What a configuration file says to `ProcessConfigOverrides`, and which lines are found from a source
-- up to the root.
use dyod_ws1718_sprint.Common.{
  ℕ, zero, suc, ◌≡◌, refl, sym, ◌∙◌, ap, Bool, true, false, not, ◌&&◌, ◌||◌, Option, none, some,
  List, [], ◌∷◌, ◌++◌, append-nil, append_assoc, if◌then◌else◌,
}
use dyod_ws1718_sprint.Text.{Str, lit, str_eq, is_empty, strip_bytes, partition}
use dyod_ws1718_sprint.Paths.{split, join_path}
use dyod_ws1718_sprint.Driver.{Run, System, M, ◌>>=◌, return}
use dyod_ws1718_sprint.Driver.Config.{Looking}
use dyod_ws1718_sprint.Driver.Outcome.{Ends, continue-Ends, Ends-weaken, IsQuiet}
use dyod_ws1718_sprint.Driver.Quiet.{is_file_error}

-- What a line of a file says: the filters that it gives, and whether the search goes on.
unfoldable pub option_says : Str → Str → List Str × Bool
option_says name val =
    if str_eq name (lit "set noparent")
    then ([], false)
    else if str_eq name (lit "filter")
    then (val ∷ [], true)
    else ([], true)

unfoldable pub line_says : Str → List Str × Bool
line_says raw =
    let line = (partition raw b'#').0 in
    let (name, val) = partition line b'=' in
    if is_empty (strip_bytes line)
    then ([], true)
    else option_says (strip_bytes name) (strip_bytes val)

unfoldable pub lines_say : List Str → List Str × Bool
lines_say [] = ([], true)
lines_say (line ∷ lines) =
    ((line_says line).0 ++ (lines_say lines).0, (line_says line).1 && (lines_say lines).1)

-- What the configuration file of a directory says; one that cannot be read to its end stops the search.
unfoldable pub directory_says : System → Str → List Str × Bool
directory_says sys dir =
    let file = join_path dir (lit "CPPLINT.cfg") in
    let (lines, failed) = sys.config_lines file in
    if not (sys.isfile file)
    then ([], true)
    else ((lines_say lines).0, (lines_say lines).1 && not failed)

-- The filter lines of the directories above a path, that of the path's own directory first, up to
-- the root or to one that stops the search.
unfoldable pub lines_above : ℕ → System → Bool → Str → List Str
lines_above zero sys going path = []
lines_above (suc fuel) sys going path =
    let (dir, base_name) = split path in
    let here = directory_says sys dir in
    let above = lines_above fuel sys (going && here.1) dir in
    if not going || is_empty base_name then [] else here.0 ++ above

-- A call gives a value with the property, or raises what a malformed configuration file raises.
pub record Gives {ℓ} {A : Type ℓ} (P : A → Type 0) (m : M A) : Type 0 where
  pub ends : (r : Run) → Ends (λ a _. P a) is_file_error (m r)

pub then-Gives {ℓ κ} :
    {A : Type ℓ} {B : Type κ} (P : A → Type 0) (Q : B → Type 0) (m : M A) (f : A → M B)
    → Gives P m
    → ((a : A) → P a → Gives Q (f a))
    → Gives Q (m >>= f)
then-Gives P Q m f h k = record {
  ends = λ r.
      continue-Ends is_file_error (λ a _. P a) (λ b _. Q b) f (λ a s p. (k a p).ends s) (m r)
        (h.ends r);
}

pub any-Gives : (m : M (Unit {0})) → IsQuiet is_file_error m → Gives (λ _. Unit {0}) m
any-Gives m h = record {
  ends = λ r.
      Ends-weaken is_file_error is_file_error (λ _ s. s.world.state ≡ r.world.state)
        (λ _ _. Unit {0}) (λ _ e. e) (λ _ _ _. tt) (m r) (h.ends r);
}

pub return-Gives {ℓ} : {A : Type ℓ} (P : A → Type 0) (a : A) → P a → Gives P (return a)
return-Gives P a h = record { ends = λ r. h }

-- The search has the filters of before and those that were said behind them, or was left early.
unfoldable pub Extends : Looking → List Str × Bool → Option Looking → Type 0
Extends s says none = Unit
Extends s says (some t) =
    (t.cfg_filters ≡ s.cfg_filters ++ says.0) × (t.keep_looking ≡ (s.keep_looking && says.1))

pub and_true : (b : Bool) → b ≡ (b && true)
and_true true = refl
and_true false = refl

pub and_false : (b : Bool) → false ≡ (b && false)
and_false true = refl
and_false false = refl

and_assoc : (a b c : Bool) → ((a && b) && c) ≡ (a && (b && c))
and_assoc true b c = refl
and_assoc false b c = refl

pub same-Extends : (s : Looking) → Extends s ([], true) (some s)
unfolding Extends
same-Extends s = (sym (append-nil s.cfg_filters), and_true s.keep_looking)

-- What is said first and what is said then.
pub Extends-then :
    (s t : Looking) (a b : List Str × Bool) (o : Option Looking)
    → Extends s a (some t)
    → Extends t b o
    → Extends s (a.0 ++ b.0, a.1 && b.1) o
unfolding Extends
Extends-then s t a b none h k = tt
Extends-then s t a b (some u) (e, f) (g, i) = (
  g ∙ (ap (λ l. l ++ b.0) e ∙ append_assoc s.cfg_filters a.0 b.0),
  i ∙ (ap (λ c. c && b.1) f ∙ and_assoc s.keep_looking a.1 b.1),
)
