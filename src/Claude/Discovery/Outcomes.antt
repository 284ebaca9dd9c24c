-- ===== src/Claude/Discovery/Outcomes.antt =====
-- providers/claude.py, discover_claude: how the outcome, the entries and the error go together.
use agent_keepalive.Claude.Discovery.{
  CliResult, DiscoveryResult, Outcome, all_valid, check_entries, check_json, discover_claude, empty,
  failure, finished, invalid_json, objects, success,
}
use agent_keepalive.Json.{Fields, Value, arr}
use agent_keepalive.Prelude.{
  Bool-cases, List, Option, Option-cases, [], arith, code, inl, inr, is_zero, none, some, true, ◌∷◌,
  ◌≡◌, ◌≢◌,
}
use agent_keepalive.Python.{Python}

-- The entries and the error go with the outcome.
abbrev pub Coherent : DiscoveryResult → Outcome → Type 0
Coherent d success = (d.entries ≢ []) × (all_valid d.entries ≡ true) × (d.error ≡ none)
Coherent d empty = (d.entries ≡ []) × (d.error ≡ none)
Coherent d failure = (d.entries ≡ []) × (d.error ≢ none)
Coherent d invalid_json = (d.entries ≡ []) × (d.error ≢ none)

check_entries-Coherent :
    (entries : List Fields) → Coherent (check_entries entries) (check_entries entries).outcome
unfolding check_entries
check_entries-Coherent [] = ground arith
check_entries-Coherent (entry ∷ entries) = elim (Bool-cases (all_valid (entry ∷ entries))) [
  | inl e ↦ rw e (ground arith)
  | inr e ↦ rw e (ground arith)
]

check_json-Coherent : (json : Option Value) → Coherent (check_json json) (check_json json).outcome
unfolding check_json
check_json-Coherent (some (arr items)) = elim (Option-cases (objects items)) [
  | inl e ↦ rw (e, check_json) (ground arith)
  | inr (entries, e) ↦ rw (e, check_json) (check_entries-Coherent entries)
]
check_json-Coherent none = ground arith
check_json-Coherent _ = ground arith

module _ (py : Python) where
  -- A discovery that failed or was malformed has no entries and an error, an empty one has neither,
  -- and a successful one has entries, all of them valid, and no error.
  pub discover_claude-Coherent :
      (result : CliResult)
      → Coherent (discover_claude py result) (discover_claude py result).outcome
  unfolding discover_claude
  discover_claude-Coherent (finished code json) = elim (Bool-cases (is_zero code)) [
    | inl e ↦ rw e (check_json-Coherent json)
    | inr e ↦ rw e (ground arith)
  ]
  discover_claude-Coherent _ = ground arith
