-- ===== src/Paths/Shorter.antt =====
-- `os.path.split` and `os.path.dirname`: the directory of a path is shorter, unless the path is a top
-- directory.
use dyod_ws1718_sprint.Common.{
  ℕ, zero, suc, ◌≤◌, ◌<◌, ◌≡◌, ◌∙◌, ◌⊎◌, inl, inr, refl, ap, sym, subst, arith, true, false, [],
  ◌∷◌, length, take, drop, reverse, length-take, length-reverse, reverse-reverse, Bool-cases, ◌==◌,
}
use dyod_ws1718_sprint.Text.{Str, is_empty, rfind_char}
use dyod_ws1718_sprint.Paths.{slash_end, drop_slashes, trim_head, split, dirname}

drop_slashes-length : (s : Str) → length (drop_slashes s) ≤ length s
unfolding drop_slashes
drop_slashes-length [] = omega arith
drop_slashes-length (c ∷ s) = ground (arith, drop_slashes-length s)

trim_head-length : (head : Str) → length (trim_head head) ≤ length head
unfolding trim_head
trim_head-length head = ground (
  arith,
  drop_slashes-length (reverse head),
  length-reverse head,
  length-reverse (drop_slashes (reverse head)),
)

is_empty-drop : (i : ℕ) (s : Str) → is_empty (drop i s) ≡ false → i < length s
unfolding is_empty
is_empty-drop zero [] h = cc
is_empty-drop zero (c ∷ s) h = omega arith
is_empty-drop (suc i) [] h = cc
is_empty-drop (suc i) (c ∷ s) h = omega (arith, is_empty-drop i s h)

-- The directory of a path that is not the root is shorter.
pub split_shorter : (p : Str) → is_empty (split p).1 ≡ false → length (split p).0 < length p
unfolding split
split_shorter p h =
    let i = slash_end (rfind_char p b'/') in
    omega (arith, is_empty-drop i p h, trim_head-length (take i p), length-take i p)

drop_slashes-cases : (s : Str) → (drop_slashes s ≡ s) ⊎ (length (drop_slashes s) < length s)
unfolding drop_slashes
drop_slashes-cases [] = inl refl
drop_slashes-cases (c ∷ s) =
    let shorter = drop_slashes-length s in
    elim (Bool-cases (c == b'/')) [
      | inl e ↦ inr (rw e (omega (arith, shorter)))
      | inr e ↦ inl (rw e refl)
    ]

trimmed :
    (head rest : Str)
    → drop_slashes (reverse head) ≡ rest
    → (rest ≡ reverse head) ⊎ (length rest < length (reverse head))
    → (trim_head head ≡ head) ⊎ (length (trim_head head) < length head)
unfolding trim_head
trimmed head [] e k = inl (rw (e, trim_head) refl)
trimmed head (c ∷ cs) e (inl f) = inl (rw (e, trim_head) (ap reverse f ∙ reverse-reverse head))
trimmed head (c ∷ cs) e (inr f) =
    inr (rw (e, trim_head) (omega (arith, f, length-reverse head, length-reverse (c ∷ cs))))

trim_head-cases : (head : Str) → (trim_head head ≡ head) ⊎ (length (trim_head head) < length head)
trim_head-cases head = trimmed head _ refl (drop_slashes-cases (reverse head))

take-all : (i : ℕ) (s : Str) → is_empty (drop i s) ≡ true → take i s ≡ s
unfolding is_empty
take-all zero [] h = refl
take-all zero (c ∷ s) h = cc
take-all (suc i) [] h = refl
take-all (suc i) (c ∷ s) h = ap (λ t. c ∷ t) (take-all i s h)

pub dirname-cases : (p : Str) → (dirname p ≡ p) ⊎ (length (dirname p) < length p)
unfolding dirname split
dirname-cases p =
    let i = slash_end (rfind_char p b'/') in
    elim (Bool-cases (is_empty (drop i p))) [
      | inl e ↦
          subst (λ h. (trim_head h ≡ p) ⊎ (length (trim_head h) < length p)) (sym (take-all i p e))
            (trim_head-cases p)
      | inr e ↦ inr (split_shorter p e)
    ]

pub dirname-length : (p : Str) → length (dirname p) ≤ length p
dirname-length p = elim (dirname-cases p) [ inl e ↦ rw e (omega arith) | inr h ↦ omega (arith, h) ]
