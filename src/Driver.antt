-- ===== src/Driver.antt =====
-- cpplint.py: what a run of the linter is made of. `Run` is the module's state, `System` is what the
-- functions below ask of the operating system and of Python's library, and `M` is a call that
-- returns a value or raises an exception, with the state as it is then.
pub mod Usage
pub mod Arguments
pub mod Config
pub mod Reading
pub mod Linter
pub mod Files
pub mod Main
pub mod Outcome
pub mod Quiet
pub mod Walk
pub mod Nearest
pub mod Says
pub mod Round
pub mod Found
pub mod Exits
pub mod Restored
pub mod Endings
use dyod_ws1718_sprint.Common.{
  ℕ, ◌+◌, ◌-◌, ◌*◌, Bool, not, ◌&&◌, Option, none, some, List, [], ◌∷◌, ◌==◌, all, if◌then◌else◌, ℤ,
  pos, negate,
}
use mathlib.Core.Option
use dyod_ws1718_sprint.Text.{Str, is_digit, strip_bytes, is_empty}
use dyod_ws1718_sprint.Report.{Exception, Result, ok, raised}
use dyod_ws1718_sprint.Errors.{World}

-- `_root`, `_line_length` and `_valid_extensions` stand beside the state that `Error` uses.
pub record Run : Type 0 where
  pub world : World
  pub root : Option Str
  pub line_length : ℤ
  pub valid_extensions : List Str

-- `set_order` gives the members of the set made from a list, in the order in which Python's set
-- iterates. `getopt` is `getopt.getopt` with the options of `ParseArguments`, and `none` where that
-- raises `GetoptError`. `config_lines` gives the lines of a file with what `IOError` cuts off left
-- out, and whether it was raised. `decoded` is the text of a file, or of stdin for "-", and `none`
-- for `IOError`. `pattern_match p s` is `re.compile(p).match(s)`, and `none` where `p` is no pattern.
pub record System : Type 0 where
  pub abspath : Str → Str
  pub exists : Str → Bool
  pub isfile : Str → Bool
  pub config_lines : Str → List Str × Bool
  pub decoded : Str → Option Str
  pub pattern_match : Str → Str → Option Bool
  pub set_order : List Str → List Str
  pub getopt : List Str → Option (List (Str × Str) × List Str)

abbrev pub M {ℓ} : Type ℓ → Type ℓ
M A = Run → Run × Result A

abbrev pub continue {ℓ κ} : {A : Type ℓ} {B : Type κ} → (A → M B) → Run × Result A → Run × Result B
continue f (r, ok a) = f a r
continue f (r, raised e) = (r, raised e)

infixl 5 ◌>>=◌ ◌>>◌
abbrev pub ◌>>=◌ {ℓ κ} : {A : Type ℓ} {B : Type κ} → M A → (A → M B) → M B
◌>>=◌ m f r = continue f (m r)

abbrev pub ◌>>◌ {ℓ} : {B : Type ℓ} → M (Unit {0}) → M B → M B
◌>>◌ m k r = continue (λ _. k) (m r)

abbrev pub return {ℓ} : {A : Type ℓ} → A → M A
return a r = (r, ok a)

abbrev pub raise {ℓ} : {A : Type ℓ} → Exception → M A
raise e r = (r, raised e)

abbrev pub modify : (Run → Run) → M (Unit {0})
modify f r = (f r, ok tt)

-- `sys.stderr.write`; the newline that ends a message of one line is left off.
abbrev pub write : Str → M (Unit {0})
write text = modify (λ r. record r { world = record r.world { stderr = text ∷ r.world.stderr } })

-- A call on the module's state alone. Where it raises, the run is over, with the state before it.
unfoldable pub world_result : Run → Result World → Run × Result (Unit {0})
world_result r (ok w) = (record r { world = w }, ok tt)
world_result r (raised e) = (r, raised e)

abbrev pub on_world : (Run → Result World) → M (Unit {0})
on_world f r = world_result r (f r)

pub digits_value : ℕ → Str → ℕ
digits_value n [] = n
digits_value n (c ∷ s) = digits_value (10 * n + (c - b'0')) s

unfoldable pub natural : Str → Option ℕ
unfolding digits_value
natural s = if not (is_empty s) && all is_digit s then some (digits_value 0 s) else none

pub signed : Str → Option ℤ
signed [] = none
signed (c ∷ s) =
    if c == b'-'
    then Option.map negate (natural s)
    else Option.map pos (natural (if c == b'+' then s else c ∷ s))

-- `int`, and `none` for its `ValueError`
unfoldable pub int : Str → Option ℤ
unfolding signed natural
int s = signed (strip_bytes s)
