-- ===== src/TimeParse/Decimal.antt =====
-- The decimal print of a natural number, as Python's `str` and f-strings give it.
use agent_keepalive.Prelude.{Text, [], if◌then◌else◌, ltb, suc, zero, ℕ, ◌%◌, ◌+◌, ◌/◌, ◌∷◌}

-- The digits of `n` before `out`; the fuel exceeds `n`, and each round divides it by ten.
unfoldable pub digits : ℕ → ℕ → Text → Text
digits zero n out = out
digits (suc fuel) n out =
    let more = digits fuel (n / 10) ((b'0' + n % 10) ∷ out) in
    if ltb n 10 then (b'0' + n) ∷ out else more

unfoldable pub decimal : ℕ → Text
unfolding digits
decimal n = digits (suc n) n []
