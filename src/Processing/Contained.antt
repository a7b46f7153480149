-- ===== src/Processing/Contained.antt =====
-- Results that are an exception of a check where they are one, and the rules for them.
use dyod_ws1718_sprint.Common.{
  ℕ, ◌≡◌, Bool, true, false, if◌then◌else◌, arith, Option, none, some, List, get_elem?,
}
use dyod_ws1718_sprint.Text.{Str}
use dyod_ws1718_sprint.Report.{Exception, Result, ok, raised, index_error, pattern_error, ◌>>=◌}
use dyod_ws1718_sprint.Driver.Linter.{is_check_error}
use dyod_ws1718_sprint.Expr.{close_at, close_expression, open_at, reverse_close_expression}

pub record IsContained {ℓ} {A : Type ℓ} (r : Result A) : Type ℓ where
  pub only : (e : Exception) → r ≡ raised e → is_check_error e ≡ true

pub ok-IsContained {ℓ} : {A : Type ℓ} (a : A) → IsContained (ok a)
ok-IsContained a = record { only = λ e h. cc }

pub index-IsContained {ℓ} : {A : Type ℓ} → IsContained {A = A} (raised index_error)
unfolding is_check_error
index-IsContained = record { only = λ e h. ground (arith, h) }

pub pattern-IsContained {ℓ} : {A : Type ℓ} → IsContained {A = A} (raised pattern_error)
unfolding is_check_error
pattern-IsContained = record { only = λ e h. ground (arith, h) }

pub then-IsContained {ℓ κ} :
    {A : Type ℓ} {B : Type κ} (r : Result A) {f : A → Result B}
    → IsContained r
    → ((a : A) → IsContained (f a))
    → IsContained (r >>= f)
then-IsContained (ok a) h k = k a
then-IsContained (raised e) h k = record { only = λ d p. h.only d (ground (arith, p)) }

pub option-IsContained {ℓ κ} :
    {A : Type ℓ} {B : Type κ} (o : Option A) {x : Result B} {f : A → Result B}
    → IsContained x
    → ((a : A) → IsContained (f a))
    → IsContained (elim o [ none ↦ x | some a ↦ f a ])
option-IsContained none h k = h
option-IsContained (some a) h k = k a

pub if-IsContained {ℓ} :
    {A : Type ℓ} (b : Bool) {x y : Result A}
    → IsContained x
    → IsContained y
    → IsContained (if b then x else y)
if-IsContained true h k = h
if-IsContained false h k = k

close_at-IsContained :
    (elided : List Str) (line : Str) (linenum pos : ℕ) (o : Option ℕ)
    → IsContained (close_at elided line linenum pos o)
unfolding close_at is_check_error
close_at-IsContained elided line linenum pos none = index-IsContained
close_at-IsContained elided line linenum pos (some c) = record { only = λ e h. ground arith }

pub close_expression-IsContained :
    (elided : List Str) (linenum pos : ℕ) → IsContained (close_expression elided linenum pos)
unfolding close_expression
close_expression-IsContained elided linenum pos =
    option-IsContained (get_elem? elided linenum) index-IsContained
      (λ line. close_at-IsContained elided line linenum pos (get_elem? line pos))

open_at-IsContained :
    (elided : List Str) (line : Str) (linenum pos : ℕ) (o : Option ℕ)
    → IsContained (open_at elided line linenum pos o)
unfolding open_at is_check_error
open_at-IsContained elided line linenum pos none = index-IsContained
open_at-IsContained elided line linenum pos (some c) = record { only = λ e h. ground arith }

pub reverse_close_expression-IsContained :
    (elided : List Str) (linenum pos : ℕ)
    → IsContained (reverse_close_expression elided linenum pos)
unfolding reverse_close_expression
reverse_close_expression-IsContained elided linenum pos =
    option-IsContained (get_elem? elided linenum) index-IsContained
      (λ line. open_at-IsContained elided line linenum pos (get_elem? line pos))

-- What goes on behind a search for the other bracket.
pub close-IsContained {ℓ} :
    (elided : List Str) (linenum pos : ℕ) {A : Type ℓ} {f : Str × ℕ × Option ℕ → Result A}
    → ((found : Str × ℕ × Option ℕ) → IsContained (f found))
    → IsContained (close_expression elided linenum pos >>= f)
close-IsContained elided linenum pos =
    then-IsContained (close_expression elided linenum pos)
      (close_expression-IsContained elided linenum pos)

pub open-IsContained {ℓ} :
    (elided : List Str) (linenum pos : ℕ) {A : Type ℓ} {f : Str × ℕ × Option ℕ → Result A}
    → ((found : Str × ℕ × Option ℕ) → IsContained (f found))
    → IsContained (reverse_close_expression elided linenum pos >>= f)
open-IsContained elided linenum pos =
    then-IsContained (reverse_close_expression elided linenum pos)
      (reverse_close_expression-IsContained elided linenum pos)
