-- ===== src/State/Filters.antt =====
-- `SetFilters` and `AddFilters`: which filters stand in the list after a success and after a raise.
use dyod_ws1718_sprint.Common.{
  ◌≡◌, refl, arith, ◌⊎◌, inl, inr, true, Option, none, some, List, [], ◌∷◌, ◌++◌, ap, All,
}
use dyod_ws1718_sprint.Text.{Str}
use dyod_ws1718_sprint.Report.{value_error}
use dyod_ws1718_sprint.State.{LintState, is_filter, first_bad, bad_filter, filters_of, add_filters}

abbrev pub AllSigned : List Str → Type 0
AllSigned fs = All (λ f. is_filter f ≡ true) fs

first_bad→AllSigned : (fs : List Str) → first_bad fs ≡ none → AllSigned fs
unfolding first_bad
first_bad→AllSigned [] h = tt
first_bad→AllSigned (f ∷ fs) h = ground (arith, first_bad→AllSigned fs)

bad_filter-none : (o : Option Str) → bad_filter o ≡ none → o ≡ none
unfolding bad_filter
bad_filter-none none h = refl
bad_filter-none (some f) h = cc

-- If no exception comes out of `AddFilters`, every filter in the list has a sign.
pub add_filters-AllSigned :
    (text : Str) (s : LintState)
    → (add_filters text s).1 ≡ none
    → AllSigned (add_filters text s).0.filters
unfolding add_filters
add_filters-AllSigned text s h = first_bad→AllSigned _ (bad_filter-none _ h)

bad_filter-cases :
    (o : Option Str) → (bad_filter o ≡ none) ⊎ ((m : Str) × (bad_filter o ≡ some (value_error m)))
unfolding bad_filter
bad_filter-cases none = inl refl
bad_filter-cases (some f) = inr (_, refl)

-- `AddFilters` raises nothing but a `ValueError`.
pub add_filters-cases :
    (text : Str) (s : LintState)
    → ((add_filters text s).1 ≡ none)
      ⊎ ((m : Str) × ((add_filters text s).1 ≡ some (value_error m)))
unfolding add_filters
add_filters-cases text s = bad_filter-cases _

AllSigned→first_bad : (fs : List Str) → AllSigned fs → first_bad fs ≡ none
unfolding first_bad
AllSigned→first_bad [] h = refl
AllSigned→first_bad (f ∷ fs) h = ground (arith, AllSigned→first_bad fs h.1)

-- Where all filters have a sign `AddFilters` raises nothing.
pub add_filters-none :
    (text : Str) (s : LintState)
    → AllSigned (s.filters ++ filters_of text)
    → (add_filters text s).1 ≡ none
unfolding add_filters bad_filter
add_filters-none text s h = ap bad_filter (AllSigned→first_bad _ h)
