-- ===== src/Json.antt =====
-- JSON values as Python's `json` module gives them. An object is the list of its members, with
-- distinct keys; a float is held as a whole number of millionths.
use agent_keepalive.Prelude.{
  Bool, Option, String, ap, arith, beq_refl, eq_iff, false, if◌then◌else◌, int_eq, nat_eq, negsuc,
  none, pair_eq, pos, refl, some, string_eq, text_eq, true, ℤ, ◌*◌, ◌+◌, ◌-◌, ◌==◌, ◌||◌, ◌≡◌,
}

mutual
  pub data Value : Type 0 where
    null : Value
    bool : Bool → Value
    int : ℤ → Value
    float : ℤ → Value
    str : String → Value
    arr : Items → Value
    obj : Fields → Value

  pub data Items : Type 0 where
    nil : Items
    cons : (item : Value) (items : Items) → Items

  pub data Fields : Type 0 where
    end : Fields
    field : (name : String) (value : Value) (members : Fields) → Fields

-- payload[key], and `none` where Python raises KeyError.
unfoldable pub find : String → Fields → Option Value
find k end = none
find k (field j v fs) = if j == k then some v else find k fs

-- payload.get(key, default)
abbrev pub get_or : String → Value → Fields → Value
get_or k default fs = elim (find k fs) [ none ↦ default | some v ↦ v ]

-- payload.get(key): a missing key reads as `None`, as a null does.
unfoldable pub get : String → Fields → Value
get k fs = get_or k null fs

-- key in payload
unfoldable pub has_key : String → Fields → Bool
has_key k end = false
has_key k (field j v fs) = j == k || has_key k fs

-- payload[key] = value
unfoldable pub set_field : String → Value → Fields → Fields
set_field k v end = field k v end
set_field k v (field j w fs) = if j == k then field j v fs else field j w (set_field k v fs)

-- isinstance(value, str)
abbrev pub as_str : Value → Option String
as_str (str s) = some s
as_str _ = none

-- isinstance(value, dict)
abbrev pub as_obj : Value → Option Fields
as_obj (obj fs) = some fs
as_obj _ = none

abbrev pub millionths : ℤ → ℤ
millionths (pos n) = pos (n * 1000000)
millionths (negsuc n) = negsuc ((n + 1) * 1000000 - 1)

-- isinstance(value, (int, float)), in millionths; a Python bool is an int.
abbrev pub as_number : Value → Option ℤ
as_number (bool true) = some (pos 1000000)
as_number (bool false) = some (pos 0)
as_number (int n) = some (millionths n)
as_number (float x) = some x
as_number _ = none

-- A value that Python takes for None.
abbrev pub is_none : Value → Bool
is_none null = true
is_none _ = false

-- {**fs, **gs}
unfoldable pub merge : Fields → Fields → Fields
merge fs end = fs
merge fs (field k v gs) = merge (set_field k v fs) gs

pub find-set_field :
    (k j : String) (v : Value) (fs : Fields)
    → find j (set_field k v fs) ≡ (if k == j then some v else find j fs)
unfolding find set_field
find-set_field k j v end = refl
find-set_field k j v (field i w fs) =
    ground (arith, eq_iff k j, eq_iff i k, eq_iff i j, find-set_field k j v fs)

-- An optional text as a JSON value.
abbrev pub or_null : Option String → Value
or_null none = null
or_null (some s) = str s

-- A member that was set is read back.
pub get-set_field_same : (k : String) (v : Value) (fs : Fields) → get k (set_field k v fs) ≡ v
unfolding get
get-set_field_same k v fs =
    let e : find k (set_field k v fs) ≡ some v = rw (find-set_field k k v fs, beq_refl k) refl in
    ap (λ o. elim o as (λ _. Value) [ none ↦ null | some x ↦ x ]) e

-- A member that was not set stays.
pub get-set_field_other :
    (k j : String) (v : Value) (fs : Fields)
    → (k == j) ≡ false
    → get j (set_field k v fs) ≡ get j fs
unfolding get
get-set_field_other k j v fs h = ground (arith, find-set_field k j v fs)
