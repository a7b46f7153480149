-- ===== src/Cleanse/Removal.antt =====
-- `RemoveMultiLineComments`: what its loop leaves, on a success and on an error.
use dyod_ws1718_sprint.Common.{
  ℕ, zero, suc, ◌+◌, ◌-◌, ◌≤◌, ◌<◌, ◌≡◌, ◌⊎◌, refl, ◌∙◌, arith, Bool, true, false, not, some, List,
  [], ◌∷◌, length, get_elem?, get_elem?-lt, leb, ltb, inl, inr, if◌then◌else◌, dec_lt,
}
use dyod_ws1718_sprint.Text.{Str, lit}
use dyod_ws1718_sprint.Report.{Report}
use dyod_ws1718_sprint.Cleanse.Comments.{
  starts_comment, ends_comment, clear_lines, find_next_multi_line_comment_start,
  find_next_multi_line_comment_end, remove_multi_line_comments_from_range, remove_loop,
  remove_multi_line_comments, unfinished_comment,
}
use dyod_ws1718_sprint.Cleanse.Ranges.{
  NoStart, length-clear_lines, get_elem?-clear_lines, dummy-starts, start-bounds, at_the_start,
  end-bounds, before_start, before_end,
}

-- The outcome of the loop.
pub record Removed (lines : List Str) (r : List Str × List Report) : Type 0 where
  pub same_length : length r.0 ≡ length lines
  pub each_line :
      (j : ℕ) → (get_elem? r.0 j ≡ get_elem? lines j) ⊎ (get_elem? r.0 j ≡ some (lit "/**/"))
  pub outcome :
      ((r.1 ≡ []) × ((i : ℕ) → NoStart r.0 i))
      ⊎ ((begin : ℕ) × (r.1 ≡ unfinished_comment begin ∷ [])
          × (begin < length r.0)
          × ((line : Str) → get_elem? r.0 begin ≡ some line → starts_comment line ≡ true)
          × ((i : ℕ) → i < begin → NoStart r.0 i)
          × ((j : ℕ) (line : Str)
              → begin ≤ j
              → get_elem? r.0 j ≡ some line
              → ends_comment line ≡ false))

-- The four ends of the loop's body.
four_ways {ℓ κ} :
    {R : Type ℓ} (P : R → Type κ) (a b c : Bool) {w x y z : R}
    → (a ≡ true → P w)
    → (a ≡ false → b ≡ true → P x)
    → (a ≡ false → b ≡ false → c ≡ true → P y)
    → (a ≡ false → b ≡ false → c ≡ false → P z)
    → P (if a then w else if b then x else if c then y else z)
four_ways P true b c f g h k = f refl
four_ways P false true c f g h k = g refl refl
four_ways P false false true f g h k = h refl refl refl
four_ways P false false false f g h k = k refl refl refl

abbrev CleanBelow : ℕ → List Str → Type 0
CleanBelow n lines = (i : ℕ) → i < n → NoStart lines i

-- Where no comment starts on any line, the loop stops with the lines as they are.
Removed-done : (lines : List Str) → CleanBelow (length lines) lines → Removed lines (lines, [])
Removed-done lines clean = record {
  same_length = refl;
  each_line = λ j. inl refl;
  outcome = inl (refl, λ i line e. clean i (get_elem?-lt lines i line e) line e);
}

module _ (lines : List Str) (n : ℕ) (inside : n < length lines) (clean : CleanBelow n lines) where
  abbrev begin : ℕ
  begin = find_next_multi_line_comment_start lines n

  abbrev end : ℕ
  end = find_next_multi_line_comment_end lines begin

  abbrev cleared : List Str
  cleared = clear_lines (suc end - begin) begin lines

  clean_to_begin : CleanBelow begin lines
  clean_to_begin i h line e = elim (dec_lt i n) [
    | yes p ↦ clean i p line e
    | no p ↦ before_start lines n i (omega arith) h inside line e
  ]

  Removed-unfinished :
      begin < length lines
      → length lines ≤ end
      → Removed lines (lines, unfinished_comment begin ∷ [])
  Removed-unfinished h k = record {
    same_length = refl;
    each_line = λ j. inl refl;
    outcome = inr (
      begin,
      refl,
      h,
      λ line e. at_the_start lines n line inside e,
      clean_to_begin,
      λ j line p e.
          before_end lines begin j line p (omega (arith, get_elem?-lt lines j line e)) h e,
    );
  }

  clean_to_end : begin < length lines → end < length lines → CleanBelow (suc end) cleared
  clean_to_end h k i p line e =
      let look = get_elem?-clear_lines (suc end - begin) begin lines i in
      elim (dec_lt i begin) [
        | yes q ↦ clean_to_begin i q line (ground (arith, look))
        | no q ↦ ground (arith, look, dummy-starts, (end-bounds lines begin).1)
      ]

  Removed-cleared : (r : List Str × List Report) → Removed cleared r → Removed lines r
  Removed-cleared r h = record {
    same_length = h.same_length ∙ length-clear_lines (suc end - begin) begin lines;
    each_line =
        λ j. ground (arith, h.each_line j, get_elem?-clear_lines (suc end - begin) begin lines j);
    outcome = h.outcome;
  }

-- The loop from line `n`, where no comment that goes on starts above.
remove_loop-Removed :
    (fuel n : ℕ) (lines : List Str)
    → length lines < fuel + n
    → CleanBelow n lines
    → Removed lines (remove_loop fuel n lines)
unfolding remove_loop remove_multi_line_comments_from_range
remove_loop-Removed zero n lines h clean = Removed-done lines (λ i p. clean i (omega (arith, p)))
remove_loop-Removed (suc fuel) n lines h clean =
    let begin = find_next_multi_line_comment_start lines n in
    let end = find_next_multi_line_comment_end lines begin in
    let cleared = clear_lines (suc end - begin) begin lines in
    four_ways (Removed lines) (not (ltb n (length lines))) (leb (length lines) begin)
      (leb (length lines) end) (λ a. Removed-done lines (λ i p. clean i (ground arith)))
      (λ a b.
        Removed-done lines (λ i p. clean_to_begin lines n (ground arith) clean i (ground arith)))
      (λ a b c. Removed-unfinished lines n (ground arith) clean (ground arith) (ground arith))
      (λ a b c. Removed-cleared lines n (ground arith) clean _ (
        remove_loop-Removed fuel (suc end) cleared
          (ground (
            arith,
            length-clear_lines (suc end - begin) begin lines,
            (start-bounds lines n).1,
            (end-bounds lines begin).1,
          ))
          (clean_to_end lines n (ground arith) clean (ground arith) (ground arith))))

-- The loop ends within its fuel. Each line is left alone or replaced by `/**/`, and either there is
-- no error and no comment that goes on starts on any line, or there is one error, for the first line
-- where such a comment starts, and no line from there on ends a comment.
pub remove_multi_line_comments-Removed :
    (lines : List Str) → Removed lines (remove_multi_line_comments lines)
unfolding remove_multi_line_comments
remove_multi_line_comments-Removed lines =
    remove_loop-Removed (suc (length lines)) 0 lines (omega arith) (λ i p. elim p [ ])
