-- ===== src/Supervisor/Stop.antt =====
-- claude_supervisor.py, the end of run: what the supervisor leaves behind.
use agent_keepalive.Prelude.{
  Bool-cases, Dict, List, String, [], arith, if◌then◌else◌, inl, inr, int_eq, lookup, nat_eq, none,
  pair_eq, some, string_eq, sym, text_eq, ◌==◌, ◌∷◌, ◌≡◌,
}
use agent_keepalive.Store.{Records, load, remove_record}
use agent_keepalive.Store.Laws.{load-remove_record, load-remove_record_own}
use agent_keepalive.Supervisor.Frame.{Finds}
use agent_keepalive.Supervisor.Records.{persist_supervisor, remove_session_records, remove_targets}
use agent_keepalive.Supervisor.State.{Key, SessionLifecycle, Supervisor, World}
use agent_keepalive.Supervisor.Tick.{fail, stop}
use mathlib.Core.Path.{subst}

remove_record-none :
    (provider target_id p t : String) (records : Records)
    → load p t records ≡ none
    → load p t (remove_record provider target_id records) ≡ none
remove_record-none provider target_id p t records h =
    rw (load-remove_record provider target_id p t records) (ground arith)

remove_targets-none :
    (sessions : List (Key × SessionLifecycle)) (p t : String) (records : Records)
    → load p t records ≡ none
    → load p t (remove_targets sessions records) ≡ none
unfolding remove_targets
remove_targets-none [] p t records h = h
remove_targets-none ((key, l) ∷ rest) p t records h =
    remove_targets-none rest p t (remove_record "claude" l.target_id records)
      (remove_record-none "claude" l.target_id p t records h)

inject : {l m : SessionLifecycle} → some m ≡ some l → m ≡ l
inject h = cc

remove_targets-gone :
    (key : Key) (l : SessionLifecycle) (sessions : Dict Key SessionLifecycle) (records : Records)
    → lookup key sessions ≡ some l
    → load "claude" l.target_id (remove_targets sessions records) ≡ none
unfolding remove_targets lookup
remove_targets-gone key l [] records h = cc
remove_targets-gone key l ((k, m) ∷ rest) records h = elim (Bool-cases (k == key)) [
  | inl e ↦
      let q : m ≡ l = inject (subst (λ b. (if b then some m else lookup key rest) ≡ some l) e h) in
      remove_targets-none rest "claude" l.target_id (remove_record "claude" m.target_id records) (
        subst
          (λ (n : SessionLifecycle).
            load "claude" l.target_id (remove_record "claude" n.target_id records) ≡ none)
          (sym q) (load-remove_record_own "claude" l.target_id records))
  | inr e ↦
      remove_targets-gone key l rest (remove_record "claude" m.target_id records)
        (subst (λ b. (if b then some m else lookup key rest) ≡ some l) e h)
]

-- However the loop ends, by a signal or by an exception, no session that the supervisor knew is
-- left in the store.
pub ended_without_sessions :
    (w : World) (name : String) (s : Supervisor) (key : Key) (l : SessionLifecycle)
    → Finds key (some l) s
    → (load "claude" l.target_id (stop w s).store ≡ none)
      × (load "claude" l.target_id (fail w name s).store ≡ none)
unfolding stop fail remove_session_records persist_supervisor
ended_without_sessions w name s key l found = (
  remove_record-none "claude" "all" "claude" l.target_id _
      (remove_targets-gone key l s.sessions _ found),
  remove_targets-gone key l s.sessions _ found,
)
