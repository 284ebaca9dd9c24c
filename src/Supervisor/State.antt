-- ===== src/Supervisor/State.antt =====
-- claude_supervisor.py: the state of the supervisor, and what a tick is told from outside.
use agent_keepalive.Claude.Discovery.{CliResult, DiscoveryResult}
use agent_keepalive.Claude.Jobs.{JobFile}
use agent_keepalive.Claude.Status.{JobOutcome}
use agent_keepalive.Json.{Fields}
use agent_keepalive.Prelude.{
  Bool, Bool-cases, Dict, List, Option, String, eq_iff, false, inl, inr, int_eq, nat_eq, none,
  pair_eq, some, string_eq, text_append, text_eq, true, ℕ, ℤ, ◌==◌,
}
use agent_keepalive.Python.{Python}
use agent_keepalive.Record.{KeeperRecord}
use agent_keepalive.Store.{Records}
use agent_keepalive.TimeParse.{Instant}

-- Which session: its config root and its short id.
abbrev pub Key : Type 0
Key = String × String

-- The tuple by which a change of a session is noticed, for a snapshot and for a disappearance.
pub data Signature : Type 0 where
  observed :
      (status : String) (loaded : Option Bool) (blocked terminal : Bool)
      (last_activity_at : Option String) (outcome : JobOutcome) (names : List (Option String))
      → Signature
  gone : (last_activity_at : Option String) → Signature

pub record SessionLifecycle : Type 0 where
  pub target_id : String
  pub config_root : String
  pub short_id : String
  pub missing_since : Option ℕ
  pub terminal_since : Option ℕ
  pub signature : Option Signature

-- Times are those of `time.monotonic`, in microseconds.
pub record Supervisor : Type 0 where
  pub claude_bin : String
  pub config_roots : List String
  pub cwd : Option String
  pub discovery_interval : ℕ
  pub disappearance_grace : ℕ
  pub terminal_grace : ℕ
  pub log_path : String
  pub last_discovery_at : Dict String ℕ
  pub discovery_entries : Dict String (Dict String Fields)
  pub discovery_results : Dict String DiscoveryResult
  pub sessions : Dict Key SessionLifecycle
  pub retired_terminal : List Key
  pub transition_count : ℕ
  pub store : Records
  pub self_record : KeeperRecord

-- What `discover_claude`, the folder of jobs, the job files, `Path.resolve` and the clocks answer
-- during one tick; `none` stands for an OSError.
pub record World : Type 0 where
  pub py : Python
  pub fingerprint : String → String
  pub pid : ℤ
  pub monotonic : ℕ
  pub now : Instant
  pub run_discovery : String → CliResult
  pub job_folders : String → Option (List String)
  pub job_file : String → String → JobFile
  pub resolve : String → Option String

-- utc_now().isoformat()
abbrev pub now_text : World → String
now_text w = w.py.isoformat w.now

-- session_target_id
unfoldable pub session_target_id : World → String → String → String
session_target_id w root short_id = text_append short_id (text_append "@" (w.fingerprint root))

unfoldable pub new_lifecycle : World → String → String → SessionLifecycle
new_lifecycle w root short_id = record {
  target_id = session_target_id w root short_id;
  config_root = root;
  short_id = short_id;
  missing_since = none;
  terminal_since = none;
  signature = none;
}

unfoldable pub String-discrete : Discrete String
String-discrete s t = elim (Bool-cases (s == t)) [
  | inl e ↦ yes ((eq_iff s t).0 e)
  | inr e ↦ no (λ p. cc (e, (eq_iff s t).1 p))
]

unfoldable pub Signature-discrete : Discrete Signature
unfolding String-discrete
Signature-discrete = hlevel String-discrete

-- signature == lifecycle.signature
unfoldable pub is_known : Option Signature → Signature → Bool
is_known none s = false
is_known (some t) s = elim (Signature-discrete t s) [ yes _ ↦ true | no _ ↦ false ]
