-- ===== src/State/Counts.antt =====
-- The error counts by category add up to the error count.
use dyod_ws1718_sprint.Common.{
  ℕ, ◌+◌, ◌≡◌, refl, ◌∙◌, arith, false, ◌⊎◌, inl, inr, Bool-cases, List, [], ◌∷◌,
}
use dyod_ws1718_sprint.Text.{Str}
use dyod_ws1718_sprint.State.{
  LintState, bump, counted_category, counts_categories, increment_error_count,
}

unfoldable pub total_of : List (Str × ℕ) → ℕ
total_of [] = 0
total_of ((c, n) ∷ counts) = n + total_of counts

total_of-bump : (c : Str) (counts : List (Str × ℕ)) → total_of (bump c counts) ≡ total_of counts + 1
unfolding total_of bump
total_of-bump c [] = refl
total_of-bump c ((d, n) ∷ counts) = ground (arith, total_of-bump c counts)

-- The statistic is not kept, or sums to the count of errors.
abbrev pub IsBalanced : LintState → Type 0
IsBalanced s = (counts_categories s ≡ false) ⊎ (total_of s.errors_by_category ≡ s.error_count)

counts_categories-increment :
    (category : Str) (s : LintState)
    → counts_categories (increment_error_count category s) ≡ counts_categories s
unfolding increment_error_count counts_categories
counts_categories-increment category s = refl

pub increment_error_count-IsBalanced :
    (category : Str) (s : LintState) → IsBalanced s → IsBalanced (increment_error_count category s)
unfolding increment_error_count
increment_error_count-IsBalanced category s h = elim (Bool-cases (counts_categories s)) [
  | inr e ↦ inl (counts_categories-increment category s ∙ e)
  | inl e ↦ inr (ground (arith, total_of-bump (counted_category s category) s.errors_by_category))
]
