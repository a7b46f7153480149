-- ===== src/Text/Number.antt =====
-- `%d`: the decimal digits of a number.
use dyod_ws1718_sprint.Common.{ℕ, zero, suc, ◌+◌, ◌/◌, ◌%◌, [], ◌∷◌, ltb, if◌then◌else◌}
use dyod_ws1718_sprint.Text.Basic.{Str}

-- The digits of `n` in front of `out`; fuel `n + 1` is enough, since `n` falls by a factor of ten.
digits_from : ℕ → ℕ → Str → Str
digits_from zero n out = out
digits_from (suc fuel) n out =
    let shown = (b'0' + n % 10) ∷ out in
    let rest = digits_from fuel (n / 10) shown in if ltb n 10 then shown else rest

unfoldable pub decimal : ℕ → Str
unfolding digits_from
decimal n = digits_from (suc n) n []
