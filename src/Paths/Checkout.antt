-- ===== src/Paths/Checkout.antt =====
-- `RepositoryName` ends where no top directory holds `.svn`.
use dyod_ws1718_sprint.Common.{
  ℕ, zero, suc, ◌<◌, ◌≡◌, inl, inr, refl, arith, Bool, true, false, not, length, if◌then◌else◌,
  Bool-cases,
}
use dyod_ws1718_sprint.Text.{Str, lit}
use dyod_ws1718_sprint.Report.{Result, ok, ◌>>=◌}
use dyod_ws1718_sprint.Paths.{dirname}
use dyod_ws1718_sprint.Paths.Shorter.{dirname-cases, dirname-length}
use dyod_ws1718_sprint.Paths.Info.{
  full_name, has, is_checkout, svn_root, top_checkout, below, repository_name,
}

-- Of the four ways that the name is found, one asks for a root.
named :
    (a b c : Bool) (root : Result Str) (f : Str → Str) (whole part : Str)
    → (dir : Str) × (root ≡ ok dir)
    → (name : Str) × ((if a
          then ok whole
          else if b
          then root >>= (λ dir. ok (f dir))
          else if c
          then ok part
          else ok whole)
        ≡ ok name)
named true b c root f whole part h = (whole, refl)
named false true c root f whole part (dir, e) = (f dir, rw e refl)
named false false true root f whole part h = (part, refl)
named false false false root f whole part h = (whole, refl)

module _ (abspath : Str → Str) (exists : Str → Bool) where
  -- No directory that is its own parent holds `.svn`.
  abbrev pub HasPlainRoot : Type 0
  HasPlainRoot = (dir : Str) → dirname dir ≡ dir → has abspath exists dir (lit ".svn") ≡ false

  module _ (plain : HasPlainRoot) where
    svn_root-IsOk :
        (fuel : ℕ) (root_dir one_up_dir : Str)
        → length one_up_dir < fuel
        → (dir : Str) × (svn_root abspath exists fuel root_dir one_up_dir ≡ ok dir)
    unfolding svn_root
    svn_root-IsOk zero root_dir one_up_dir h = elim h [ ]
    svn_root-IsOk (suc fuel) root_dir one_up_dir h =
        elim (Bool-cases (has abspath exists one_up_dir (lit ".svn"))) [
          | inr e ↦ (root_dir, rw e refl)
          | inl e ↦ elim (dirname-cases one_up_dir) [
            | inl top ↦ let no = plain one_up_dir top in absurd cc
            | inr shorter ↦
                let (dir, f) =
                  svn_root-IsOk fuel (dirname root_dir) (dirname one_up_dir)
                    (omega (arith, shorter)) in
                (dir, rw (e, f) refl)
          ]
        ]

    pub repository_name-IsOk :
        (filename : Str) → (name : Str) × (repository_name abspath exists filename ≡ ok name)
    unfolding repository_name
    repository_name-IsOk filename =
        let fullname = full_name abspath exists filename in
        let project_dir = dirname fullname in
        let top = top_checkout abspath exists (suc (length fullname)) project_dir project_dir in
        let (dir, e) =
          svn_root-IsOk (suc (length fullname)) project_dir (dirname project_dir)
            (omega (arith, dirname-length fullname, dirname-length project_dir)) in
        named (not (exists fullname)) (has abspath exists project_dir (lit ".svn"))
          (is_checkout abspath exists top) _
          (λ root_dir. below abspath exists fullname root_dir project_dir) fullname
          (below abspath exists fullname top project_dir) (dir, e)
