-- ===== src/Regex/Steps.antt =====
-- Where the engine stops: a result comes from a place that the pattern leads to.
use dyod_ws1718_sprint.Common.{
  ℕ, zero, suc, ◌+◌, ◌-◌, ◌≤◌, ◌≡◌, ◌⊎◌, inl, inr, refl, ap, ◌∙◌, arith, Bool, true, false, ◌&&◌,
  ◌==◌, Option, none, some, [], ◌∷◌, length, take, length-take,
}
use dyod_ws1718_sprint.Text.{Str}
use dyod_ws1718_sprint.Regex.Syntax.{
  Re, CharSet, empty, fails, bol, eol, word_boundary, chr, seq, alt, star, look, set_has,
}
use dyod_ws1718_sprint.Regex.Syntax
use dyod_ws1718_sprint.Regex.Engine.{
  Place, Cont, star_loop, match_chr, match_text, match_re, group_in,
}
use dyod_ws1718_sprint.Regex.Measures.{plain, flat, outside, least, size, low, total}

-- What holds of the place where a pattern stops.
pub record Taken (r : Re) (s u : Place) : Type 0 where
  pub forward : length u.rest + least r ≤ length s.rest
  pub keeps : plain r ≡ true → u.groups ≡ s.groups
  pub floor :
      flat r ≡ true → (n bound : ℕ) → bound ≤ size n s.groups → low n r bound ≤ size n u.groups
  pub width :
      flat r ≡ true → total u.groups + length u.rest + outside r ≤ total s.groups + length s.rest

-- The continuation was called at such a place.
abbrev pub Steps : Re → Place → Cont → Place → Type 0
Steps r s k t = (u : Place) × (k u ≡ some t) × Taken r s u

look_parts :
    (positive : Bool) (o k : Option Place) {t : Place}
    → ◌≡◌ {A = Option Place}
        (elim o [
          | some u ↦ elim positive [ true ↦ k | false ↦ none ]
          | none ↦ elim positive [ true ↦ none | false ↦ k ]
        ])
        (some t)
    → k ≡ some t
look_parts true none k e = cc
look_parts true (some u) k e = e
look_parts false none k e = e
look_parts false (some u) k e = cc

-- One of two alternatives gave the result.
either :
    (a b : Option Place) {t : Place}
    → ◌≡◌ {A = Option Place} (elim a [ some u ↦ some u | none ↦ b ]) (some t)
    → (a ≡ some t) ⊎ (b ≡ some t)
either none b e = inr e
either (some u) b e = inl e

either_greedy :
    (greedy : Bool) (more stop : Option Place) {t : Place}
    → ◌≡◌ {A = Option Place}
        (elim greedy [
          | true ↦ elim more [ some u ↦ some u | none ↦ stop ]
          | false ↦ elim stop [ some u ↦ some u | none ↦ more ]
        ])
        (some t)
    → (more ≡ some t) ⊎ (stop ≡ some t)
either_greedy true more stop e = either more stop e
either_greedy false more stop e = elim (either stop more e) [ inl f ↦ inr f | inr f ↦ inl f ]

-- A guarded call that gave a result was made.
guarded :
    (b : Bool) (o : Option Place) {t : Place}
    → ◌≡◌ {A = Option Place} (elim b [ true ↦ o | false ↦ none ]) (some t)
    → (b ≡ true) × (o ≡ some t)
guarded true o e = (refl, e)
guarded false o e = cc

Taken-star :
    (g : Bool) (r : Re) (s u v : Place) → Taken r s u → Taken (star g r) u v → Taken (star g r) s v
unfolding plain flat outside least low
Taken-star g r s u v h l = record {
  forward = omega (arith, h.forward, l.forward);
  keeps = λ p. l.keeps p ∙ h.keeps p;
  floor = λ p n b q. rw (l.keeps p, h.keeps p) q;
  width = λ p. omega (arith, h.forward, l.width p, ap total (h.keeps p));
}

Taken-same :
    (r : Re) (s : Place) → outside r ≡ 0 → least r ≡ 0 → ((n b : ℕ) → low n r b ≡ b) → Taken r s s
Taken-same r s e f g = record {
  forward = omega arith;
  keeps = λ p. refl;
  floor = λ p n b q. rw (g n b) q;
  width = λ p. omega arith;
}

module _ (greedy : Bool) (r : Re) (body : Place → Cont → Option Place)
    (step : (s t : Place) (k : Cont) → body s k ≡ some t → Steps r s k t) where
  star_loop-Steps :
      (fuel : ℕ) (s t : Place) (k : Cont)
      → star_loop fuel greedy body s k ≡ some t
      → Steps (star greedy r) s k t
  unfolding star_loop outside least low
  star_loop-Steps zero s t k e = (s, e, Taken-same (star greedy r) s refl refl (λ n b. refl))
  star_loop-Steps (suc fuel) s t k e = elim (either_greedy greedy _ (k s) e) [
    | inr f ↦ (s, f, Taken-same (star greedy r) s refl refl (λ n b. refl))
    | inl f ↦
        let (u, g, h) = step s t _ f in
        let (v, e', l) = star_loop-Steps fuel u t k (guarded _ _ g).1 in
        (v, e', Taken-star greedy r s u v h l)
  ]

match_chr-Steps :
    (set : CharSet) (s t : Place) (rest : Str) (k : Cont)
    → s.rest ≡ rest
    → match_chr set s rest k ≡ some t
    → Steps (chr set) s k t
unfolding match_chr plain flat outside least low
match_chr-Steps set s t [] k r e = cc
match_chr-Steps set s t (c ∷ cs) k r e = (
  record s { before = c ∷ s.before; rest = cs },
  (guarded _ _ e).1,
  record {
    forward = rw r (omega arith);
    keeps = λ p. refl;
    floor = λ p n b q. q;
    width = λ p. rw r (omega arith);
  },
)

module _ (n : ℕ) where
  match_text-Steps :
      (text : Str) (s t : Place) (rest : Str) (k : Cont)
      → s.rest ≡ rest
      → match_text text s rest k ≡ some t
      → Steps (Syntax.back n) s k t
  unfolding match_text least outside low
  match_text-Steps [] s t rest k r e = (s, e, Taken-same (Syntax.back n) s refl refl (λ m b. refl))
  match_text-Steps (d ∷ text) s t [] k r e = cc
  match_text-Steps (d ∷ text) s t (c ∷ cs) k r e =
      let (u, f, h) =
        match_text-Steps text (record s { before = c ∷ s.before; rest = cs }) t cs k refl
          (guarded (c == d) (match_text text (record s { before = c ∷ s.before; rest = cs }) cs k)
            e).1 in
      (
        u,
        f,
        record {
          forward = rw r (omega (arith, h.forward));
          keeps = h.keeps;
          floor = h.floor;
          width = λ p. rw r (omega (arith, h.width p));
        },
      )

back_parts :
    (o : Option Str) (f : Str → Option Place) {t : Place}
    → ◌≡◌ {A = Option Place} (elim o [ none ↦ none | some v ↦ f v ]) (some t)
    → (v : Str) × (f v ≡ some t)
back_parts none f e = cc
back_parts (some v) f e = (v, e)

and_parts : (a b : Bool) → (a && b) ≡ true → (a ≡ true) × (b ≡ true)
and_parts a b h = ground arith

Taken-seq : (a b : Re) (s u v : Place) → Taken a s u → Taken b u v → Taken (seq a b) s v
unfolding plain flat outside least low
Taken-seq a b s u v h l = record {
  forward = omega (arith, h.forward, l.forward);
  keeps = λ p. l.keeps (and_parts _ _ p).1 ∙ h.keeps (and_parts _ _ p).0;
  floor = λ p n x q. l.floor (and_parts _ _ p).1 n _ (h.floor (and_parts _ _ p).0 n x q);
  width = λ p. omega (arith, h.width (and_parts _ _ p).0, l.width (and_parts _ _ p).1);
}

Taken-left : (a b : Re) (s u : Place) → Taken a s u → Taken (alt a b) s u
unfolding plain flat outside least low
Taken-left a b s u h = record {
  forward = omega (arith, h.forward);
  keeps = λ p. h.keeps (and_parts _ _ p).0;
  floor = λ p n x q. omega (arith, h.floor (and_parts _ _ p).0 n x q);
  width = λ p. omega (arith, h.width (and_parts _ _ p).0);
}

Taken-right : (a b : Re) (s u : Place) → Taken b s u → Taken (alt a b) s u
unfolding plain flat outside least low
Taken-right a b s u h = record {
  forward = omega (arith, h.forward);
  keeps = λ p. h.keeps (and_parts _ _ p).1;
  floor = λ p n x q. omega (arith, h.floor (and_parts _ _ p).1 n x q);
  width = λ p. omega (arith, h.width (and_parts _ _ p).1);
}

Taken-group :
    (n : ℕ) (r : Re) (s u : Place)
    → Taken r s u
    → Taken
        (Syntax.group n r)
        s
        (record u { groups = (n, take (length s.rest - length u.rest) s.rest) ∷ u.groups })
unfolding plain flat outside least low total group_in
Taken-group n r s u h = record {
  forward = h.forward;
  keeps = λ p. cc;
  floor = λ p k x q.
      ground (arith, h.forward, h.keeps p, length-take (length s.rest - length u.rest) s.rest);
  width = λ p.
      omega (
        arith,
        h.forward,
        ap total (h.keeps p),
        length-take (length s.rest - length u.rest) s.rest,
      );
}

pub match_re-Steps : (r : Re) (s t : Place) (k : Cont) → match_re r s k ≡ some t → Steps r s k t
unfolding match_re outside least low
match_re-Steps empty s t k e = (s, e, Taken-same empty s refl refl (λ n b. refl))
match_re-Steps fails s t k e = cc
match_re-Steps bol s t k e = (s, (guarded _ _ e).1, Taken-same bol s refl refl (λ n b. refl))
match_re-Steps eol s t k e = (s, (guarded _ _ e).1, Taken-same eol s refl refl (λ n b. refl))
match_re-Steps word_boundary s t k e =
    (s, (guarded _ _ e).1, Taken-same word_boundary s refl refl (λ n b. refl))
match_re-Steps (chr set) s t k e = match_chr-Steps set s t s.rest k refl e
match_re-Steps (seq a b) s t k e =
    let (u, f, h) = match_re-Steps a s t (λ v. match_re b v k) e in
    let (v, g, l) = match_re-Steps b u t k f in (v, g, Taken-seq a b s u v h l)
match_re-Steps (alt a b) s t k e = elim (either (match_re a s k) (match_re b s k) e) [
  | inl f ↦ let (u, g, h) = match_re-Steps a s t k f in (u, g, Taken-left a b s u h)
  | inr f ↦ let (u, g, h) = match_re-Steps b s t k f in (u, g, Taken-right a b s u h)
]
match_re-Steps (star greedy r) s t k e =
    star_loop-Steps greedy r (match_re r) (match_re-Steps r) (suc (length s.rest)) s t k e
match_re-Steps (Syntax.group n r) s t k e =
    let (u, f, h) = match_re-Steps r s t _ e in
    (
      record u { groups = (n, take (length s.rest - length u.rest) s.rest) ∷ u.groups },
      f,
      Taken-group n r s u h,
    )
match_re-Steps (Syntax.back n) s t k e =
    let (text, f) = back_parts (group_in n s.groups) (λ v. match_text v s s.rest k) e in
    match_text-Steps n text s t s.rest k refl f
match_re-Steps (look positive r) s t k e = (
  s,
  look_parts positive (match_re r s some) (k s) e,
  Taken-same (look positive r) s refl refl (λ n b. refl),
)
