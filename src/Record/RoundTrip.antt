-- ===== src/Record/RoundTrip.antt =====
-- src/agent_keepalive/state.py: a record and its JSON form.
use agent_keepalive.Json.{as_str, find, get, or_null}
use agent_keepalive.Prelude.{Bool, Option, String, none, ok, refl, some, ◌≡◌}
use agent_keepalive.Python.{Python, int_of, str_of, truthy}
use agent_keepalive.Record.{
  KeeperRecord, dict_or_empty, from_dict, optional_bool, optional_str, or_null_bool, require,
  to_dict, with_legacy_socket,
}

module _ (py : Python) where
  optional_str-or_null : (s : Option String) → optional_str py (or_null s) ≡ s
  unfolding optional_str str_of
  optional_str-or_null none = refl
  optional_str-or_null (some s) = refl

  optional_bool-or_null_bool : (b : Option Bool) → optional_bool py (or_null_bool b) ≡ b
  unfolding optional_bool truthy
  optional_bool-or_null_bool none = refl
  optional_bool-or_null_bool (some b) = refl

  as_str-or_null : (s : Option String) → as_str (or_null s) ≡ s
  as_str-or_null none = refl
  as_str-or_null (some s) = refl

  -- Reading back what `asdict` writes gives the record, with every field as it was.
  pub from_dict-to_dict : (r : KeeperRecord) → from_dict py (to_dict r) ≡ ok r
  unfolding from_dict to_dict require find get int_of str_of truthy with_legacy_socket dict_or_empty
  from_dict-to_dict r = simp (optional_str-or_null, optional_bool-or_null_bool, as_str-or_null)
