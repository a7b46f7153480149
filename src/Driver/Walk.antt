-- ===== src/Driver/Walk.antt =====
-- The loop of `ProcessConfigOverrides` goes up a path that gets shorter in every round, so it ends by
-- its own tests.
use dyod_ws1718_sprint.Common.{
  ℕ, zero, suc, ◌<◌, ◌≡◌, refl, arith, not, ◌||◌, Option, none, some, List, length, inl, inr,
  Bool-cases,
}
use dyod_ws1718_sprint.Text.{Str, is_empty}
use dyod_ws1718_sprint.Report.{Result, ok, raised}
use dyod_ws1718_sprint.Paths.{split}
use dyod_ws1718_sprint.Paths.Shorter.{split_shorter}
use dyod_ws1718_sprint.Driver.{Run, System, M, continue, return}
use dyod_ws1718_sprint.Driver.Config.{Looking, config_round, config_loop}

continue-same {ℓ κ} :
    {A : Type ℓ} {B : Type κ} (f g : A → M B)
    → ((a : A) (r : Run) → f a r ≡ g a r)
    → (out : Run × Result A) → continue f out ≡ continue g out
continue-same f g h (r, ok a) = h a r
continue-same f g h (r, raised e) = refl

-- The rest of the loop rest_of_loop a round.
abbrev rest_of_loop : ℕ → System → Str → Str → Option Looking → M (Option (List Str))
rest_of_loop fuel sys filename path o = elim o [
  | none ↦ return none
  | some t ↦ config_loop fuel sys filename path t
]

-- With any fuel above the length of the path the loop gives the same, so it ends by its own tests.
pub config_loop-same :
    (fuel gas : ℕ) (sys : System) (filename path : Str) (s : Looking) (r : Run)
    → length path < fuel
    → length path < gas
    → config_loop fuel sys filename path s r ≡ config_loop gas sys filename path s r
unfolding config_loop
config_loop-same zero gas sys filename path s r h k = elim h [ ]
config_loop-same (suc fuel) zero sys filename path s r h k = elim k [ ]
config_loop-same (suc fuel) (suc gas) sys filename path s r h k =
    elim (Bool-cases (not s.keep_looking || is_empty (split path).1)) [
      | inl e ↦ rw e refl
      | inr e ↦
          let shorter : length (split path).0 < length path =
            split_shorter path (ground (arith, e)) in
          rw e (
            continue-same (rest_of_loop fuel sys filename (split path).0)
              (rest_of_loop gas sys filename (split path).0)
              (λ o t.
                elim o
                  as (λ o'.
                    rest_of_loop fuel sys filename (split path).0 o' t
                    ≡ rest_of_loop gas sys filename (split path).0 o' t) [
                      | none ↦ refl
                      | some u ↦
                          config_loop-same fuel gas sys filename (split path).0 u t
                            (omega (arith, shorter)) (omega (arith, shorter))
                    ])
              (config_round sys filename (split path).0 (split path).1 s r))
    ]
