-- ===== src/Driver/Nearest.antt =====
-- The filter lines of the configuration files: the first that is found and says something of a
-- category decides.
use dyod_ws1718_sprint.Common.{
  ◌≡◌, refl, sym, ap, subst, ◌∙◌, arith, true, Option, none, some, List, [], ◌∷◌, ◌++◌, reverse,
  reverse-append, append_assoc, append-nil, All, All-append,
}
use dyod_ws1718_sprint.Text.{Str}
use dyod_ws1718_sprint.Report.{ok}
use dyod_ws1718_sprint.State.{filters_of, add_filters}
use dyod_ws1718_sprint.State.Filters.{AllSigned, add_filters-none}
use dyod_ws1718_sprint.Errors.Verdict.{last_match}
use dyod_ws1718_sprint.Driver.{Run}
use dyod_ws1718_sprint.Driver.Arguments.{filters_call}
use dyod_ws1718_sprint.Driver.Config.{add_all, apply_config}

-- The filter that decides on a category, for the filter lines in the order in which they are found,
-- and the filters of the command line.
unfoldable pub nearest : Str → List Str → List Str → Option Str
nearest category [] base = last_match category base
nearest category (text ∷ texts) base = elim (last_match category (filters_of text)) [
  | some f ↦ some f
  | none ↦ nearest category texts base
]

abbrev or_before : Option Str → Option Str → Option Str
or_before (some f) o = some f
or_before none o = o

last_match-append :
    (category : Str) (fs gs : List Str)
    → last_match category (fs ++ gs) ≡ or_before (last_match category gs) (last_match category fs)
unfolding last_match
last_match-append category [] gs = ground arith
last_match-append category (f ∷ fs) gs = ground (arith, last_match-append category fs gs)

-- The filters behind a run over texts.
all_filters : List Str → List Str
all_filters [] = []
all_filters (text ∷ texts) = filters_of text ++ all_filters texts

all_filters-append : (ss ts : List Str) → all_filters (ss ++ ts) ≡ all_filters ss ++ all_filters ts
unfolding all_filters
all_filters-append [] ts = refl
all_filters-append (s ∷ ss) ts =
    ap (λ l. filters_of s ++ l) (all_filters-append ss ts)
    ∙ sym (append_assoc (filters_of s) (all_filters ss) (all_filters ts))

decided :
    (category text : Str) (texts base : List Str)
    → last_match category (base ++ all_filters (reverse texts)) ≡ nearest category texts base
    → or_before
        (last_match category (filters_of text))
        (last_match category (base ++ all_filters (reverse texts)))
      ≡ nearest category (text ∷ texts) base
unfolding nearest
decided category text texts base h = ground (arith, h)

nearest-eq :
    (category : Str) (texts base : List Str)
    → last_match category (base ++ all_filters (reverse texts)) ≡ nearest category texts base
unfolding nearest all_filters
nearest-eq category [] base = ap (last_match category) (append-nil base)
nearest-eq category (text ∷ texts) base =
    let older = all_filters (reverse texts) in
    let newest : all_filters (reverse (text ∷ texts)) ≡ older ++ filters_of text =
      ap all_filters (reverse-append (text ∷ []) texts)
      ∙ all_filters-append (reverse texts) (text ∷ [])
      ∙ ap (λ l. older ++ l) (append-nil (filters_of text)) in
    ap (λ l. last_match category (base ++ l)) newest
    ∙ ap (last_match category) (sym (append_assoc base older (filters_of text)))
    ∙ last_match-append category (base ++ older) (filters_of text)
    ∙ decided category text texts base (nearest-eq category texts base)

-- What a run over texts with signed filters leaves.
record Added (texts : List Str) (r s : Run) : Type 0 where
  added : s.world.state.filters ≡ r.world.state.filters ++ all_filters texts

add_all-Added :
    (texts : List Str) (r : Run)
    → AllSigned r.world.state.filters
    → All (λ text. AllSigned (filters_of text)) texts
    → (s : Run) × (add_all texts r ≡ (s, ok tt)) × Added texts r s
unfolding add_all all_filters filters_call add_filters
add_all-Added [] r h k = (r, refl, record { added = sym (append-nil r.world.state.filters) })
add_all-Added (text ∷ texts) r h k =
    let state = (add_filters text r.world.state).0 in
    let next : Run = record r { world = record r.world { state = state } } in
    let signed = All-append _ r.world.state.filters (filters_of text) h k.0 in
    let (s, e, a) = add_all-Added texts next signed k.1 in
    (
      s,
      rw (add_filters-none text r.world.state signed) e,
      record {
        added = a.added ∙ append_assoc r.world.state.filters (filters_of text) (all_filters texts);
      },
    )

All-reverse {ℓ κ} : {A : Type ℓ} (P : A → Type κ) (xs : List A) → All P xs → All P (reverse xs)
All-reverse P [] h = tt
All-reverse P (x ∷ xs) h =
    subst (All P) (sym (reverse-append (x ∷ []) xs))
      (All-append P (reverse xs) (x ∷ []) (All-reverse P xs h.1) (h.0, tt))

-- Where the filters of the command line and those of the filter lines that were found have signs, the
-- end of `ProcessConfigOverrides` applies them and goes on; then, of the lines in the order in which
-- they were found, the first that has a filter for a category decides on it, by its last one, and
-- the command line does where none has.
pub apply_config-nearest :
    (texts : List Str) (r : Run)
    → AllSigned r.world.state.filters
    → All (λ text. AllSigned (filters_of text)) texts
    → (s : Run) × (apply_config (some texts) r ≡ (s, ok true))
      × ((category : Str)
          → last_match category s.world.state.filters
            ≡ nearest category texts r.world.state.filters)
unfolding apply_config
apply_config-nearest texts r h k =
    let (s, e, a) = add_all-Added (reverse texts) r h (All-reverse _ texts k) in
    (
      s,
      rw e refl,
      λ category.
          ap (last_match category) a.added ∙ nearest-eq category texts r.world.state.filters,
    )
