-- ===== src/Modules/Prefix.antt =====
-- `FilesBelongToSameModule`: the prefix that it gives leads from the header's stem to the source's.
use dyod_ws1718_sprint.Common.{
  ◌-◌, ◌≡◌, refl, sym, ap, ◌∙◌, subst, arith, Bool, true, false, ◌&&◌, [], ◌∷◌, ◌++◌, length, take,
  drop, reverse, length-append, reverse-reverse, reverse-append, ◌≢◌, Bool-cases, inl, inr,
}
use dyod_ws1718_sprint.Text.{Str, lit, starts_with, ends_with}
use dyod_ws1718_sprint.Report.{ok}
use dyod_ws1718_sprint.Paths.Info.{repository_name, is_source}
use dyod_ws1718_sprint.Modules.{
  without_last, header_stem, source_stem, same_stem, same_module, files_belong_to_same_module,
}

starts_with-append : (s p : Str) → starts_with s p ≡ true → s ≡ p ++ drop (length p) s
unfolding starts_with
starts_with-append s [] h = refl
starts_with-append [] (c ∷ p) h = cc
starts_with-append (d ∷ s) (c ∷ p) h = ground (arith, starts_with-append s p)

take-append : (s t : Str) → take (length s) (s ++ t) ≡ s
take-append [] t = refl
take-append (c ∷ s) t = ap (λ x. c ∷ x) (take-append s t)

take-append-append : (d t : Str) → take (length (d ++ t) - length t) (d ++ t) ++ t ≡ d ++ t
take-append-append d t =
    let n : length (d ++ t) - length t ≡ length d = omega (arith, length-append d t) in
    ap (λ k. take k (d ++ t) ++ t) n ∙ ap (λ x. x ++ t) (take-append d t)

-- A suffix and what stands in front of it make up the text.
ends_with-append : (s t : Str) → ends_with s t ≡ true → take (length s - length t) s ++ t ≡ s
unfolding ends_with
ends_with-append s t h =
    let rest = drop (length (reverse t)) (reverse s) in
    let e : s ≡ reverse rest ++ t =
      sym (reverse-reverse s)
      ∙ (ap reverse (starts_with-append (reverse s) (reverse t) h)
          ∙ (reverse-append (reverse t) rest ∙ ap (λ x. reverse rest ++ x) (reverse-reverse t))) in
    subst (λ x. take (length x - length t) x ++ t ≡ x) (sym e) (take-append-append (reverse rest) t)

without_last-append :
    (s t : Str) → ends_with s t ≡ true → t ≢ [] → without_last (length t) s ++ t ≡ s
unfolding without_last
without_last-append s [] h k = absurd (k refl)
without_last-append s (c ∷ t) h k = ends_with-append s (c ∷ t) h

-- The answer is yes exactly if `test` holds; then the prefix, with the header's stem behind it, is
-- the source's, unless the header's is empty; and where the answer is no, the prefix is empty.
pub record Belongs (test : Bool) (stem_cc stem_h : Str) (r : Bool × Str) : Type 0 where
  pub answer : r.0 ≡ test
  pub prefix : r.0 ≡ true → stem_h ≢ [] → r.1 ++ stem_h ≡ stem_cc
  pub no_prefix : r.0 ≡ false → r.1 ≡ []

refused : (stem_cc stem_h : Str) → Belongs false stem_cc stem_h (false, [])
refused stem_cc stem_h = record { answer = refl; prefix = λ e. cc; no_prefix = λ e. refl }

same_stem-Belongs :
    (stem_cc stem_h : Str)
    → Belongs (ends_with stem_cc stem_h) stem_cc stem_h (same_stem stem_cc stem_h)
unfolding same_stem
same_stem-Belongs stem_cc stem_h = elim (Bool-cases (ends_with stem_cc stem_h)) [
  | inl e ↦ rw e (record {
    answer = refl;
    prefix = λ _ k. without_last-append stem_cc stem_h e k;
    no_prefix = λ f. cc;
  })
  | inr e ↦ rw e (refused stem_cc stem_h)
]

same_module-Belongs :
    (name filename_cc filename_h : Str)
    → Belongs
        (is_source name
          && ends_with filename_h (lit ".h")
          && ends_with (source_stem name filename_cc) (header_stem filename_h))
        (source_stem name filename_cc)
        (header_stem filename_h)
        (same_module name filename_cc filename_h)
unfolding same_module
same_module-Belongs name filename_cc filename_h =
    let stem_cc = source_stem name filename_cc in
    let stem_h = header_stem filename_h in
    elim (Bool-cases (is_source name)) [
      | inr e ↦ rw e (refused stem_cc stem_h)
      | inl e ↦ elim (Bool-cases (ends_with filename_h (lit ".h"))) [
        | inr f ↦ rw (e, f) (refused stem_cc stem_h)
        | inl f ↦ rw (e, f) (same_stem-Belongs stem_cc stem_h)
      ]
    ]

module _ (abspath : Str → Str) (exists : Str → Bool) where
  -- Where the first file has the name `name` in the repository, an answer is given: the files belong
  -- together exactly if the first is a source file, the second has the extension `.h`, and the stem
  -- of the first ends with that of the second. Then the prefix leads from the second stem, if it is
  -- not empty, to the first. Otherwise the prefix is empty.
  pub files_belong_to_same_module-Belongs :
      (filename_cc filename_h name : Str)
      → repository_name abspath exists filename_cc ≡ ok name
      → (r : Bool × Str) × (files_belong_to_same_module abspath exists filename_cc filename_h
          ≡ ok r)
        × Belongs
            (is_source name
              && ends_with filename_h (lit ".h")
              && ends_with (source_stem name filename_cc) (header_stem filename_h))
            (source_stem name filename_cc)
            (header_stem filename_h)
            r
  unfolding files_belong_to_same_module
  files_belong_to_same_module-Belongs filename_cc filename_h name e =
      let answer = same_module name filename_cc filename_h in
      (answer, rw e refl, same_module-Belongs name filename_cc filename_h)
