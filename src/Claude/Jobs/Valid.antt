-- ===== src/Claude/Jobs/Valid.antt =====
-- providers/claude.py, read_job_state: what an accepted job state is.
use agent_keepalive.Claude.Jobs.{
  JobFile, check_payload, cwd_is_clean, in_flight_is_valid, max_job_state_bytes, payload_is_valid,
  read_job_state, readable, text_or_none, updated_at_is_valid,
}
use agent_keepalive.Claude.Status.{job_ok}
use agent_keepalive.Json.{Fields, Value, find-set_field, get, obj, set_field, str}
use agent_keepalive.Prelude.{
  Bool-cases, Option, String, arith, false, inl, inr, int_eq, nat_eq, pair_eq, refl, some,
  string_eq, text_eq, true, ℕ, ◌==◌, ◌≡◌, ◌≤◌,
}
use agent_keepalive.Python.{Python}
use mathlib.Core.Path.{subst}

module _ (py : Python) where
  -- What the rest of the program relies on in an accepted payload.
  pub record IsUsable (short_id : String) (payload : Fields) : Type 0 where
    pub state_text : text_or_none (get "state" payload) ≡ true
    pub session_text : text_or_none (get "sessionId" payload) ≡ true
    pub updated_at_text : text_or_none (get "updatedAt" payload) ≡ true
    pub cwd_text : text_or_none (get "cwd" payload) ≡ true
    pub time_parses : updated_at_is_valid py (get "updatedAt" payload) ≡ true
    pub tasks_counted : in_flight_is_valid (get "inFlight" payload) ≡ true
    pub cwd_clean : cwd_is_clean (get "cwd" payload) ≡ true
    pub named : get "short_id" payload ≡ str short_id

  get-set_short_id :
      (key short_id : String) (payload : Fields)
      → ("short_id" == key) ≡ false
      → get key (set_field "short_id" (str short_id) payload) ≡ get key payload
  unfolding get
  get-set_short_id key short_id payload h =
      ground (arith, find-set_field "short_id" key (str short_id) payload)

  get-set_short_id_self :
      (short_id : String) (payload : Fields)
      → get "short_id" (set_field "short_id" (str short_id) payload) ≡ str short_id
  unfolding get
  get-set_short_id_self short_id payload =
      ground (arith, find-set_field "short_id" "short_id" (str short_id) payload)

  set_short_id-IsUsable :
      (short_id : String) (payload : Fields)
      → payload_is_valid py payload ≡ true
      → IsUsable short_id (set_field "short_id" (str short_id) payload)
  unfolding payload_is_valid
  set_short_id-IsUsable short_id payload h = record {
    state_text = rw (get-set_short_id "state" short_id payload refl) (ground arith);
    session_text = rw (get-set_short_id "sessionId" short_id payload refl) (ground arith);
    updated_at_text = rw (get-set_short_id "updatedAt" short_id payload refl) (ground arith);
    cwd_text = rw (get-set_short_id "cwd" short_id payload refl) (ground arith);
    time_parses = rw (get-set_short_id "updatedAt" short_id payload refl) (ground arith);
    tasks_counted = rw (get-set_short_id "inFlight" short_id payload refl) (ground arith);
    cwd_clean = rw (get-set_short_id "cwd" short_id payload refl) (ground arith);
    named = get-set_short_id_self short_id payload;
  }

  check_payload-IsUsable :
      (short_id : String) (json : Option Value) (payload : Fields)
      → check_payload py short_id json ≡ record { outcome = job_ok; payload = some payload }
      → IsUsable short_id payload
  unfolding check_payload
  check_payload-IsUsable short_id (some (obj json)) payload h =
      elim (Bool-cases (payload_is_valid py json)) [
        | inl e ↦ subst (IsUsable short_id) (ground arith) (set_short_id-IsUsable short_id json e)
        | inr e ↦ absurd (ground arith)
      ]
  check_payload-IsUsable short_id _ payload h = absurd (ground arith)

  -- An accepted job state comes from a file of at most a mebibyte, in bytes and in characters, and
  -- its payload is usable: state, sessionId, updatedAt and cwd are texts or absent, the time stamp
  -- parses, the tasks are a number, the folder's name holds no NUL, and short_id is the id asked for.
  pub read_job_state-IsUsable :
      (short_id : String) (file : JobFile) (payload : Fields)
      → read_job_state py short_id file ≡ record { outcome = job_ok; payload = some payload }
      → (size : ℕ) × (characters : ℕ) × (json : Option Value) × (file
          ≡ readable size characters json)
        × (size ≤ max_job_state_bytes)
        × (characters ≤ max_job_state_bytes)
        × IsUsable short_id payload
  unfolding read_job_state
  read_job_state-IsUsable short_id (readable size characters json) payload h = (
    size,
    characters,
    json,
    refl,
    ground arith,
    ground arith,
    check_payload-IsUsable short_id json payload (ground arith),
  )
  read_job_state-IsUsable short_id _ payload h = absurd (ground arith)
