-- ===== src/Paths/Names.antt =====
-- src/agent_keepalive/paths.py: the characters of a file name.
use agent_keepalive.Paths.{is_alnum, is_safe, keeper_state_name, safe_target_id}
use agent_keepalive.Prelude.{
  All, Bool-cases, String, Text, [], ap, code, codes, inl, inr, refl, sym, true, ℕ, ◌∙◌, ◌∷◌, ◌≡◌,
}
use mathlib.Core.List.{append_cancel_left, append_cancel_right}
use mathlib.Core.Path.{ap₂}
use text.Mathlib.TextEquality.{Char-path}

-- A file name never holds a character that is a separator or that a shell would read.
safe_target_id-IsSafe : (s : Text) → All (λ c. is_safe c ≡ true) (safe_target_id s)
unfolding safe_target_id
safe_target_id-IsSafe [] = tt
safe_target_id-IsSafe (c ∷ s) = (
  elim (Bool-cases (is_safe c)) [ inl e ↦ rw e e | inr e ↦ rw e (unfold is_safe is_alnum in refl) ],
  safe_target_id-IsSafe s,
)

-- The ids that stand in a file name as they are.
abbrev pub SafeId : String → Type 0
SafeId s = All (λ c. is_safe c ≡ true) (codes s)

safe_target_id_fixed : (s : Text) → All (λ c. is_safe c ≡ true) s → safe_target_id s ≡ s
unfolding safe_target_id
safe_target_id_fixed [] h = refl
safe_target_id_fixed (c ∷ s) (h, hs) = rw h (ap (λ l. c ∷ l) (safe_target_id_fixed s hs))

codes-injective : (s t : String) → codes s ≡ codes t → s ≡ t
codes-injective String.[] String.[] e = refl
codes-injective String.[] (String.◌∷◌ d t) e = absurd (cc e)
codes-injective (String.◌∷◌ c s) String.[] e = absurd (cc e)
codes-injective (String.◌∷◌ c s) (String.◌∷◌ d t) e =
    let heads : code c ≡ code d = cc e in
    let tails : codes s ≡ codes t = cc e in
    ap₂ (λ x y. String.◌∷◌ x y) (Char-path c d heads) (codes-injective s t tails)

tails_equal : (c : ℕ) (s t : Text) → c ∷ s ≡ c ∷ t → s ≡ t
tails_equal c s t e = cc e

-- Two targets of one provider, whose ids stand in the file name as they are, have different files.
pub keeper_state_name-injective :
    (provider s t : String)
    → SafeId s
    → SafeId t
    → keeper_state_name provider s ≡ keeper_state_name provider t
    → s ≡ t
unfolding keeper_state_name
keeper_state_name-injective provider s t hs ht e =
    let behind = append_cancel_left (codes provider) _ _ e in
    let between =
      append_cancel_right (b'-' ∷ safe_target_id (codes s)) (b'-' ∷ safe_target_id (codes t))
        (codes ".json") behind in
    codes-injective s t (
      sym (safe_target_id_fixed (codes s) hs)
      ∙ tails_equal b'-' (safe_target_id (codes s)) (safe_target_id (codes t)) between
      ∙ safe_target_id_fixed (codes t) ht)
