-- ===== src/Prelude/Bits.antt =====
-- Bytes, and facts about bits that hold because they hold of every byte.
use agent_keepalive.Prelude.Tests.{nat_eq, ◌==◌}
use mathlib.Core.Bool.{Bool, true, ◌&&◌}
use mathlib.Core.List.{List}
use mathlib.Core.Path.{refl, ◌≡◌}
use native.Mathlib.Omega.{arith}
use Prim.Native.Nat.{bit_xor, suc, zero, ℕ, ◌<◌}

abbrev pub Bytes : Type 0
Bytes = List ℕ

abbrev pub IsByte : ℕ → Type 0
IsByte b = b < 256

abbrev pub all_below : ℕ → (ℕ → Bool) → Bool
all_below zero p = true
all_below (suc n) p = p n && all_below n p

-- A test that holds of all numbers below a bound, one after the other, holds of each.
pub all_below_sound : (n : ℕ) (p : ℕ → Bool) (x : ℕ) → all_below n p ≡ true → x < n → p x ≡ true
all_below_sound zero p x h below = absurd (omega arith)
all_below_sound (suc n) p x h below = ground (arith, all_below_sound n p x)

xor_table : all_below 256 (λ k. all_below 256 (λ x. bit_xor (bit_xor x k) k == x)) ≡ true
xor_table = refl

-- A byte that is masked twice with one byte is as it was.
pub xor_twice : (x k : ℕ) → IsByte x → IsByte k → bit_xor (bit_xor x k) k ≡ x
xor_twice x k hx hk = (nat_eq.beq_iff _ x).0 (
    all_below_sound 256 (λ y. bit_xor (bit_xor y k) k == y) x
      (all_below_sound 256 (λ j. all_below 256 (λ y. bit_xor (bit_xor y j) j == y)) k xor_table hk)
      hx)
