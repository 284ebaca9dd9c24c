-- ===== src/TimeParse/Parts.antt =====
-- src/agent_keepalive/timeparse.py: the token loop on the parts that format_duration writes, one
-- after the other.
use agent_keepalive.Prelude.{
  Bool-cases, List, Result, Text, [], ap, arith, false, flatten-append, if◌then◌else◌, inl, inr,
  int_eq, length, nat_eq, not, ok, pair_eq, refl, some, string_eq, suc, sym, text_eq, zero, ℕ, ◌*◌,
  ◌++◌, ◌+◌, ◌<◌, ◌==◌, ◌||◌, ◌∙◌, ◌∷◌, ◌≡◌, ◌≢◌, ◌≤◌,
}
use agent_keepalive.TimeParse.{append_part, match_token, part, sum_tokens}
use agent_keepalive.TimeParse.Decimal.{decimal, digits}
use agent_keepalive.TimeParse.Tokens.{
  IsUnit, StartsPart, decimal-StartsPart, digits-append, digits-ne-nil, length-digits,
  match_token-digits,
}
use mathlib.Core.List.{append-nil, append_assoc, flatten}
use mathlib.Core.Path.{subst}

-- Enough fuel makes the token loop end with `r`, from the text `s` and the total `total`.
pub record Sums (s : Text) (total : ℕ) (r : Result ℕ) : Type 0 where
  pub run : (fuel : ℕ) → length s ≤ fuel → sum_tokens fuel s total ≡ r

pub Sums-nil : (total : ℕ) → Sums [] total (ok total)
unfolding sum_tokens
Sums-nil total = record { run = λ fuel h. nil fuel }
  where
    nil : (fuel : ℕ) → sum_tokens fuel [] total ≡ ok total
    nil zero = refl
    nil (suc fuel) = refl

pub part-digits : (n unit : ℕ) (rest : Text) → part n unit ++ rest ≡ digits (suc n) n (unit ∷ rest)
unfolding part decimal
part-digits n unit rest =
    append_assoc (digits (suc n) n []) (unit ∷ []) rest ∙ digits-append (suc n) n [] (unit ∷ rest)

sum_tokens_round :
    (fuel total k : ℕ) (s rest : Text)
    → s ≢ []
    → match_token s ≡ some (k, rest)
    → sum_tokens (suc fuel) s total ≡ sum_tokens fuel rest (total + k)
unfolding sum_tokens
sum_tokens_round fuel total k [] rest n e = absurd (n refl)
sum_tokens_round fuel total k (c ∷ s) rest n e = ground arith

Sums-part :
    (n unit seconds total : ℕ) (rest : Text) {r : Result ℕ}
    → IsUnit unit seconds
    → StartsPart rest
    → Sums rest (total + n * seconds) r
    → Sums (part n unit ++ rest) total r
Sums-part n unit seconds total rest {r} u h sums = rw part-digits (record { run = go })
  where
    go :
        (fuel : ℕ)
        → length (digits (suc n) n (unit ∷ rest)) ≤ fuel
        → sum_tokens fuel (digits (suc n) n (unit ∷ rest)) total ≡ r
    go zero le = absurd (omega (arith, length-digits (suc n) n (unit ∷ rest)))
    go (suc fuel) le =
        sum_tokens_round fuel total (n * seconds) _ rest
          (digits-ne-nil (suc n) n (unit ∷ rest) (cc)) (match_token-digits n unit seconds rest u h)
        ∙ sums.run fuel (omega (arith, length-digits (suc n) n (unit ∷ rest)))

-- What `if n: parts.append(…)` adds to the text.
unfoldable pub optional : ℕ → ℕ → Text
optional n unit = if n == 0 then [] else part n unit

pub optional-StartsPart :
    (n unit : ℕ) (rest : Text) → StartsPart rest → StartsPart (optional n unit ++ rest)
unfolding optional
optional-StartsPart n unit rest h = elim (Bool-cases (n == 0)) [
  | inl e ↦ rw e h
  | inr e ↦ rw (e, part-digits n unit rest) (decimal-StartsPart n (unit ∷ rest))
]

pub Sums-optional :
    (n unit seconds total : ℕ) (rest : Text) {r : Result ℕ}
    → IsUnit unit seconds
    → StartsPart rest
    → Sums rest (total + n * seconds) r
    → Sums (optional n unit ++ rest) total r
unfolding optional
Sums-optional n unit seconds total rest {r} u h sums = elim (Bool-cases (n == 0)) [
  | inl e ↦ rw e (subst (λ k. Sums rest k r) (ground arith) sums)
  | inr e ↦ rw e (Sums-part n unit seconds total rest u h sums)
]

flatten-append_part :
    (parts : List Text) (n unit : ℕ)
    → flatten (append_part parts n unit) ≡ flatten parts ++ optional n unit
unfolding append_part optional flatten
flatten-append_part parts n unit = elim (Bool-cases (n == 0)) [
  | inl e ↦ rw e (sym (append-nil (flatten parts)))
  | inr e ↦ rw (e, flatten-append) (ap (λ t. flatten parts ++ t) (append-nil (part n unit)))
]

abbrev parts_before : ℕ → ℕ → ℕ → List Text
parts_before d h m = append_part (append_part (append_part [] d b'd') h b'h') m b'm'

flatten-parts_before :
    (d h m : ℕ)
    → flatten (parts_before d h m) ≡ optional d b'd' ++ (optional h b'h' ++ optional m b'm')
unfolding flatten
flatten-parts_before d h m =
    rw (flatten-append_part, flatten-append_part, flatten-append_part)
      (append_assoc (optional d b'd') (optional h b'h') (optional m b'm'))

parts_before-ne-nil : (d h m : ℕ) → 0 < d + h + m → (length (parts_before d h m) == 0) ≡ false
unfolding append_part
parts_before-ne-nil d h m p = ground arith

pub parts_text :
    (d h m s : ℕ)
    → 0 < d + h + m + s
    → flatten (
        if not (s == 0) || length (parts_before d h m) == 0
        then parts_before d h m ++ part s b's' ∷ []
        else parts_before d h m)
      ≡ optional d b'd' ++ (optional h b'h' ++ (optional m b'm' ++ optional s b's'))
unfolding optional flatten
parts_text d h m s p = elim (Bool-cases (s == 0)) [
  | inl e ↦
      rw (e, parts_before-ne-nil d h m (ground arith))
        (flatten-parts_before d h m ∙ simp append-nil)
  | inr e ↦ rw (e, flatten-append, flatten-parts_before) (simp (append-nil, append_assoc))
]
