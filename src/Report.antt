-- ===== src/Report.antt =====
-- What the checks of cpplint.py hand to their `error` argument, and the exceptions that it raises.
use dyod_ws1718_sprint.Common.{ℕ, ◌≡◌, ◌⊎◌, inl, inr, refl, Bool, List, [], ◌∷◌, if◌then◌else◌}
use dyod_ws1718_sprint.Text.{Str}

-- The arguments of a call `error(filename, linenum, category, confidence, message)`; the file name
-- is the same in all calls for a file.
pub record Report : Type 0 where
  pub linenum : ℕ
  pub category : Str
  pub confidence : ℕ
  pub message : Str

abbrev pub report : ℕ → Str → ℕ → Str → Report
report linenum category confidence message = record {
  linenum = linenum;
  category = category;
  confidence = confidence;
  message = message;
}

-- A call of `error` under a test.
abbrev pub report_if : Bool → ℕ → Str → ℕ → Str → List Report
report_if b linenum category confidence message =
    if b then report linenum category confidence message ∷ [] else []

-- `exit_status` and `exit_message` are the `SystemExit` of `sys.exit` with a number and with a text,
-- `pattern_error` is that of `re.compile`. The last two are none of Python's: `endless` stands for a
-- loop that never ends, and a run stops with `negative_verbosity` at a level below 0, since levels are
-- natural numbers in this library.
pub data Exception : Type 0 where
  value_error : Str → Exception
  exit_status : ℕ → Exception
  exit_message : Str → Exception
  assertion_error index_error pattern_error endless negative_verbosity : Exception

pub data Result {ℓ} (A : Type ℓ) : Type ℓ where
  ok : A → Result A
  raised : Exception → Result A

infixl 5 ◌>>=◌
abbrev pub ◌>>=◌ {ℓ κ} : {A : Type ℓ} {B : Type κ} → Result A → (A → Result B) → Result B
ok a >>= f = f a
raised e >>= f = raised e

pub Result-cases {ℓ} :
    {A : Type ℓ} (r : Result A) → ((a : A) × (r ≡ ok a)) ⊎ ((e : Exception) × (r ≡ raised e))
Result-cases (ok a) = inl (a, refl)
Result-cases (raised e) = inr (e, refl)
