-- ===== src/Prelude/Errors.antt =====
-- A call that may raise: the value, or the exception's class and text.
use agent_keepalive.Prelude.Ints.{ℤ}
use mathlib.Core.Logic.{inl, inr, ◌≢◌, ◌⊎◌}
use mathlib.Core.Option.{Option}
use mathlib.Core.Path.{ap, refl, subst, ◌≡◌}
use Prim.Native.Nat.{ℕ}
use Prim.Native.String.{String}

pub data Exception : Type 0 where
  value_error : String → Exception
  runtime_error : String → Exception
  key_error : String → Exception
  type_error : String → Exception
  attribute_error : String → Exception
  overflow_error : Exception
  zero_division_error : Exception
  unicode_error : Exception
  timeout_error : String → Exception
  websocket_closed : String → Exception
  rpc_connection_closed : String → Exception
  json_rpc_error : ℤ → String → Exception
  recovery_error : String → Exception
  server_unavailable : String → Exception
  os_error : (errno : Option ℕ) → (text : String) → Exception
  -- A loop of the model has used up its bound, which the source's loop does not have.
  no_fuel : Exception
  -- A call has not come back so far: it waits for what the peer does next.
  still_waiting : Exception

pub data Result {ℓ} (A : Type ℓ) : Type ℓ where
  ok : A → Result A
  err : Exception → Result A

infixl 5 ◌>>=◌
abbrev pub ◌>>=◌ {ℓ κ} : {A : Type ℓ} {B : Type κ} → Result A → (A → Result B) → Result B
ok a >>= f = f a
err e >>= f = err e

-- A call that may raise and that reads and changes a state.
abbrev pub Stateful {ℓ κ} : Type ℓ → Type κ → Type (ℓ ⊔ κ)
Stateful S A = S → Result A × S

module _ {ℓ κ} {S : Type ℓ} {A : Type κ} where
  abbrev pub give : A → Stateful S A
  give a w = (ok a, w)

  abbrev pub raise : Exception → Stateful S A
  raise e w = (err e, w)

  abbrev pub lift : Result A → Stateful S A
  lift r w = (r, w)

abbrev pub go_on {ℓ κ μ} :
    {S : Type ℓ} {A : Type κ} {B : Type μ} → (A → Stateful S B) → Result A × S → Result B × S
go_on f (ok a, w) = f a w
go_on f (err e, w) = (err e, w)

infixr 4 ◌>>>◌
abbrev pub ◌>>>◌ {ℓ κ μ} :
    {S : Type ℓ} {A : Type κ} {B : Type μ} → Stateful S A → (A → Stateful S B) → Stateful S B
(m >>> f) w = go_on f (m w)

-- The one value of a call that returns nothing.
abbrev pub Nothing : Type 0
Nothing = Unit

abbrev from_ok {ℓ} : {A : Type ℓ} → A → Result A → A
from_ok d (ok a) = a
from_ok d (err e) = d

ok-injective {ℓ} : {A : Type ℓ} {a b : A} → ok a ≡ ok b → a ≡ b
ok-injective {a} h = ap (λ r. from_ok a r) h

ok-err {ℓ} : {A : Type ℓ} {a : A} {e : Exception} → err e ≢ ok a
ok-err h = cc

-- What holds of the value, where there is one, and of the state.
abbrev pub Gives {ℓ κ μ} : {S : Type ℓ} {A : Type κ} → (A → S → Type μ) → Result A × S → Type μ
Gives P (ok a, w) = P a w
Gives P (err e, w) = Unit

module _ {ℓ κ μ} {S : Type ℓ} {A : Type κ} where
  pub value_then {ν} :
      {B : Type ν} (P : A → S → Type μ) (r : Result B × S) (f : B → Stateful S A)
      → ((b : B) (w : S) → r ≡ (ok b, w) → Gives P (f b w))
      → Gives P (go_on f r)
  value_then P (ok b, w) f next = next b w refl
  value_then P (err e, w) f next = tt

  pub value_lift {ν} :
      {B : Type ν} (P : A → S → Type μ) (r : Result B) (f : B → Stateful S A) (w : S)
      → ((b : B) → r ≡ ok b → Gives P (f b w))
      → Gives P (go_on f (lift r w))
  value_lift P (ok b) f w next = next b refl
  value_lift P (err e) f w next = tt

  pub value_use : (P : A → S → Type μ) (r : Result A × S) (a : A) → r.0 ≡ ok a → Gives P r → P a r.1
  value_use P (ok b, w) a h g = subst (λ x. P x w) (ok-injective h) g
  value_use P (err e, w) a h g = absurd (ok-err h)

-- What holds of the state is kept by one call after another.
pub holds_then {ℓ κ μ ν} :
    {S : Type ℓ} {A : Type κ} {B : Type μ} (I : S → Type ν) (r : Result A × S)
    (f : A → Stateful S B)
    → I r.1
    → ((a : A) (w : S) → I w → I (f a w).1)
    → I (go_on f r).1
holds_then I (ok a, w) f h next = next a w h
holds_then I (err e, w) f h next = h

-- The same, where it matters what the call returned.
pub holds_known {ℓ κ μ ν} :
    {S : Type ℓ} {A : Type κ} {B : Type μ} (I : S → Type ν) (r : Result A × S)
    (f : A → Stateful S B)
    → I r.1
    → ((a : A) (w : S) → r.0 ≡ ok a → I w → I (f a w).1)
    → I (go_on f r).1
holds_known I (ok a, w) f h next = next a w refl h
holds_known I (err e, w) f h next = h

pub holds_lift {ℓ κ μ ν} :
    {S : Type ℓ} {A : Type κ} {B : Type μ} (I : S → Type ν) (r : Result A) (w : S)
    (f : A → Stateful S B)
    → I w
    → ((a : A) → r ≡ ok a → I (f a w).1)
    → I (go_on f (r, w)).1
holds_lift I (ok a) w f h next = next a refl
holds_lift I (err e) w f h next = h

pub Result-cases {ℓ} :
    {A : Type ℓ} (r : Result A) → ((a : A) × (r ≡ ok a)) ⊎ ((e : Exception) × (r ≡ err e))
Result-cases (ok a) = inl (a, refl)
Result-cases (err e) = inr (e, refl)
