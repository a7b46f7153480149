-- ===== src/Driver/Outcome.antt =====
-- What holds of a call's value and state where it returns, and of its exception where it raises one.
use dyod_ws1718_sprint.Common.{◌≡◌, refl, ◌∙◌, Bool, true, false, if◌then◌else◌}
use dyod_ws1718_sprint.Text.{Str}
use dyod_ws1718_sprint.Report.{Exception, Result, ok, raised}
use dyod_ws1718_sprint.Driver.{Run, M, continue, ◌>>=◌, return, raise, modify, write}

abbrev pub Ends {ℓ} :
    {A : Type ℓ} → (A → Run → Type 0) → (Exception → Bool) → Run × Result A → Type 0
Ends Q E (r, ok a) = Q a r
Ends Q E (r, raised e) = E e ≡ true

pub continue-Ends {ℓ κ} :
    {A : Type ℓ} {B : Type κ} (E : Exception → Bool) (Q : A → Run → Type 0) (P : B → Run → Type 0)
    (f : A → M B)
    → ((a : A) (r : Run) → Q a r → Ends P E (f a r))
    → (out : Run × Result A) → Ends Q E out
    → Ends P E (continue f out)
continue-Ends E Q P f step (r, ok a) h = step a r h
continue-Ends E Q P f step (r, raised e) h = h

-- More may be said of the exceptions.
pub Ends-weaken {ℓ} :
    {A : Type ℓ} (E F : Exception → Bool) (Q P : A → Run → Type 0)
    → ((e : Exception) → E e ≡ true → F e ≡ true)
    → ((a : A) (r : Run) → Q a r → P a r)
    → (out : Run × Result A) → Ends Q E out
    → Ends P F out
Ends-weaken E F Q P wider weaker (r, ok a) h = weaker a r h
Ends-weaken E F Q P wider weaker (r, raised e) h = wider e h

-- A call leaves the settings and the counts alone, and raises only exceptions of `E`.
pub record IsQuiet {ℓ} {A : Type ℓ} (E : Exception → Bool) (m : M A) : Type 0 where
  pub ends : (r : Run) → Ends (λ _ s. s.world.state ≡ r.world.state) E (m r)

pub IsQuiet-then {ℓ κ} :
    {A : Type ℓ} {B : Type κ} {E : Exception → Bool} {m : M A} {f : A → M B}
    → IsQuiet E m
    → ((a : A) → IsQuiet E (f a))
    → IsQuiet E (m >>= f)
IsQuiet-then {E} {m} {f} h k = record {
  ends = λ r.
      continue-Ends E (λ _ s. s.world.state ≡ r.world.state) (λ _ s. s.world.state ≡ r.world.state)
        f
        (λ a s e.
          Ends-weaken E E (λ _ t. t.world.state ≡ s.world.state)
            (λ _ t. t.world.state ≡ r.world.state) (λ _ p. p) (λ _ _ p. p ∙ e) (f a s)
            ((k a).ends s))
        (m r) (h.ends r);
}

pub IsQuiet-if {ℓ} :
    {A : Type ℓ} {E : Exception → Bool} (b : Bool) {m n : M A}
    → IsQuiet E m
    → IsQuiet E n
    → IsQuiet E (if b then m else n)
IsQuiet-if true h k = h
IsQuiet-if false h k = k

-- A call that writes, or sets what is no part of the settings and counts.
pub IsQuiet-modify :
    {E : Exception → Bool} {f : Run → Run}
    → ((r : Run) → (f r).world.state ≡ r.world.state)
    → IsQuiet E (modify f)
IsQuiet-modify h = record { ends = h }

pub IsQuiet-write : {E : Exception → Bool} (text : Str) → IsQuiet E (write text)
IsQuiet-write text = record { ends = λ r. refl }

module _ {ℓ} {A : Type ℓ} {E : Exception → Bool} where
  pub IsQuiet-return : (a : A) → IsQuiet E (return a)
  IsQuiet-return a = record { ends = λ r. refl }

  pub IsQuiet-raise : {e : Exception} → E e ≡ true → IsQuiet E (raise {A = A} e)
  IsQuiet-raise h = record { ends = λ r. h }
