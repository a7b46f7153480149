-- ===== src/Functions/Sizes.antt =====
-- `_FunctionState`: what a sequence of counted lines leads to at the end of the function.
use dyod_ws1718_sprint.Common.{
  ℕ, zero, suc, ◌+◌, ◌*◌, ◌/◌, ◌^◌, ◌≤◌, ◌<◌, ◌≡◌, refl, subst, arith, true, List, [], ◌∷◌, ltb,
  if◌then◌else◌, if_elim, tests, ◌⊎◌, inl, inr,
}
use native.Mathlib.Nat.{pow-succ', le-div_iff_mul-le, div-lt_iff_lt-mul, one-le-pow}
use dyod_ws1718_sprint.Text.{Str}
use dyod_ws1718_sprint.Report.{Report}
use dyod_ws1718_sprint.Functions.{
  FunctionState, begin, count, check, base_trigger, error_level, size_report, log2_to,
}

pub count_times : ℕ → FunctionState → FunctionState
count_times zero s = s
count_times (suc n) s = count_times n (count s)

counted :
    (n : ℕ) (s : FunctionState)
    → s.in_a_function ≡ true
    → ((count_times n s).in_a_function ≡ true)
      × ((count_times n s).lines_in_function ≡ s.lines_in_function + n)
      × ((count_times n s).current_function ≡ s.current_function)
unfolding count_times count
counted zero s h = (h, omega arith, refl)
counted (suc n) s h = ground (arith, counted n (count s))

counted_begin :
    (n : ℕ) (name : Str) (s : FunctionState)
    → let t = count_times n (begin name s) in
      (t.in_a_function ≡ true) × (t.lines_in_function ≡ n) × (t.current_function ≡ name)
unfolding begin
counted_begin n name s =
    let (inside, lines, current) = counted n (begin name s) refl in
    (inside, omega (arith, lines), current)

-- `l` is the logarithm of `n`, or the bound on the rounds.
abbrev IsLog : ℕ → ℕ → ℕ → Type 0
IsLog rounds n l = (2 ^ l ≤ n) × (l ≤ rounds) × (l < rounds → n < 2 ^ suc l)

log2_to-IsLog : (rounds n : ℕ) → 0 < n → IsLog rounds n (log2_to rounds n)
unfolding log2_to
log2_to-IsLog zero n h = (h, omega arith, λ k. absurd (omega arith))
log2_to-IsLog (suc rounds) n h =
    if_elim (IsLog (suc rounds) n) (ltb 1 n)
      (λ b.
        let (low, most, high) = log2_to-IsLog rounds (n / 2) (ground arith) in
        (
          omega (arith, pow-succ' 2 (log2_to rounds (n / 2))),
          omega arith,
          λ k. omega (arith, high (omega arith), pow-succ' 2 (suc (log2_to rounds (n / 2)))),
        ))
      (λ b. (h, omega arith, λ k. ground arith))

-- The level of an error for that many lines, of which one is reported.
pub record Level (base lines level : ℕ) : Type 0 where
  pub at_most_5 : level ≤ 5
  pub reached : base * 2 ^ level ≤ lines
  pub highest : level < 5 → lines < base * 2 ^ suc level

capped-Level :
    (lines base l : ℕ)
    → 0 < base
    → IsLog 6 (lines / base) l
    → Level base lines (if ltb 5 l then 5 else l)
capped-Level lines base l h (low, most, high) =
    if_elim (Level base lines) (ltb 5 l)
      (λ b.
        let top : l ≡ 6 = omega (tests) in
        let far : 2 ^ 6 ≤ lines / base = subst (λ t. 2 ^ t ≤ lines / base) top low in
        record {
          at_most_5 = omega arith;
          reached = omega (arith, (le-div_iff_mul-le h).0 far);
          highest = λ c. absurd (omega arith);
        })
      (λ b. record {
        at_most_5 = ground arith;
        reached = omega (arith, (le-div_iff_mul-le h).0 low);
        highest = λ c. omega (arith, (div-lt_iff_lt-mul h).0 (high (omega arith)));
      })

error_level-Level :
    (lines base : ℕ) → 0 < base → base ≤ lines → Level base lines (error_level lines base)
unfolding error_level
error_level-Level lines base h k =
    capped-Level lines base (log2_to 6 (lines / base)) h
      (log2_to-IsLog 6 (lines / base) ((le-div_iff_mul-le h).1 (omega arith)))

base_trigger-pos : (name : Str) → 0 < base_trigger name
unfolding base_trigger
base_trigger-pos name = ground arith

-- A function with that many counted lines, at its end.
abbrev pub at_end : ℕ → ℕ → ℕ → Str → FunctionState → List Report
at_end verbose_level linenum n name s = check verbose_level linenum (count_times n (begin name s))

-- One report, of the level that fits the number of lines, or none.
pub Verdict : ℕ → ℕ → ℕ → Str → List Report → Type 0
Verdict verbose_level linenum n name reports =
    ((n ≤ base_trigger name * 2 ^ verbose_level) × (reports ≡ []))
    ⊎ ((level : ℕ) × (base_trigger name * 2 ^ verbose_level < n)
        × (reports ≡ size_report linenum level name n (base_trigger name * 2 ^ verbose_level) ∷ [])
        × Level (base_trigger name) n level)

one-le-pow2 : (k : ℕ) → 1 ≤ 2 ^ k
one-le-pow2 k = one-le-pow k 2 (omega arith)

base-le : (base v n : ℕ) → base * 2 ^ v < n → base ≤ n
base-le base v n h = grind (arith, one-le-pow2)

-- After `Begin` and `n` times `Count`, `Check` reports exactly the functions with more lines than the
-- trigger times 2 to the verbosity. The level of the report is at most 5, and it is the highest up to
-- 5 for which the trigger times 2 to the level is at most the number of lines.
pub check-Verdict :
    (verbose_level linenum n : ℕ) (name : Str) (s : FunctionState)
    → Verdict verbose_level linenum n name (at_end verbose_level linenum n name s)
unfolding check Verdict begin
check-Verdict verbose_level linenum n name s =
    let (inside, lines, current) = counted_begin n name s in
    rw (inside, lines, current)
      (if_elim (Verdict verbose_level linenum n name)
        (ltb (base_trigger name * 2 ^ verbose_level) n)
        (λ b. inr (
          error_level n (base_trigger name),
          omega tests,
          refl,
          error_level-Level n (base_trigger name) (base_trigger-pos name)
              (base-le (base_trigger name) verbose_level n (omega tests)),
        ))
        (λ b. inl (ground arith, refl)))
