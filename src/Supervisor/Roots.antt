-- ===== src/Supervisor/Roots.antt =====
-- claude_supervisor.py: the discovery and the sessions of one root, over all its candidates.
use agent_keepalive.Claude.Discovery.{discover_claude, is_authoritative}
use agent_keepalive.Json.{Fields}
use agent_keepalive.Prelude.{
  Bool, Bool-cases, Dict, List, String, [], ap, arith, beq_refl, eq_iff, false, inl, inr, int_eq,
  lookup, lookup-put, nat_eq, pair_eq, put, refl, some, string_eq, sym, text_eq, true, ◌+◌, ◌<◌,
  ◌==◌, ◌∙◌, ◌∷◌, ◌≡◌,
}
use agent_keepalive.Supervisor.Frame.{Finds, refresh_session-SameElsewhere}
use agent_keepalive.Supervisor.Removal.{is_seen, refresh_session_unseen}
use agent_keepalive.Supervisor.Root.{
  candidates, discovery_authoritative, discovery_due, live_entries_of, record_discovery,
  refresh_discovery_if_due, refresh_root_records, refresh_sessions,
}
use agent_keepalive.Supervisor.Session.{refresh_session}
use agent_keepalive.Supervisor.State.{SessionLifecycle, Supervisor, World}
use mathlib.Core.Path.{subst}

-- Only the sessions of `root` may differ.
abbrev pub SameOtherRoots : String → Supervisor → Supervisor → Type 0
SameOtherRoots root s t =
    (r id : String) → (root == r) ≡ false → lookup (r, id) t.sessions ≡ lookup (r, id) s.sessions

refresh_sessions-SameOtherRoots :
    (w : World) (root : String) (entries : Dict String Fields) (authoritative : Bool)
    (ids : List String) (s : Supervisor)
    → SameOtherRoots root s (refresh_sessions w root entries authoritative ids s)
unfolding refresh_sessions
refresh_sessions-SameOtherRoots w root entries authoritative [] s r id h = refl
refresh_sessions-SameOtherRoots w root entries authoritative (i ∷ ids) s r id h =
    refresh_sessions-SameOtherRoots w root entries authoritative ids
      (refresh_session w root entries authoritative i s) r id h
    ∙ refresh_session-SameElsewhere w root entries authoritative i s (r, id) (rw h refl)

-- The refresh of one root leaves the sessions of every other root as they are.
pub refresh_root_records-other :
    (w : World) (root : String) (s : Supervisor) (r id : String)
    → (root == r) ≡ false
    → lookup (r, id) (refresh_root_records w root s).sessions ≡ lookup (r, id) s.sessions
unfolding refresh_root_records
refresh_root_records-other w root s =
    refresh_sessions-SameOtherRoots w root (live_entries_of root s) (discovery_authoritative root s)
      (candidates w root s) s

refresh_session_untrusted :
    (w : World) (root : String) (entries : Dict String Fields) (i id : String) (s : Supervisor)
    (l : SessionLifecycle)
    → is_seen w root entries id ≡ false
    → Finds (root, id) (some l) s
    → Finds (root, id) (some l) (refresh_session w root entries false i s)
refresh_session_untrusted w root entries i id s l h found = elim (Bool-cases (i == id)) [
  | inl e ↦
      let q : i ≡ id = (eq_iff i id).0 e in
      subst (λ j. Finds (root, id) (some l) (refresh_session w root entries false j s)) (sym q)
        (subst (Finds (root, id) (some l))
          (sym (refresh_session_unseen w root entries id s l found false h))
          (rw (lookup-put (root, id) (root, id) l s.sessions, beq_refl id, beq_refl root)))
  | inr e ↦
      refresh_session-SameElsewhere w root entries false i s (root, id) (rw (e, beq_refl root) refl)
      ∙ found
]

refresh_sessions_untrusted :
    (w : World) (root : String) (entries : Dict String Fields) (ids : List String) (id : String)
    (s : Supervisor) (l : SessionLifecycle)
    → is_seen w root entries id ≡ false
    → Finds (root, id) (some l) s
    → Finds (root, id) (some l) (refresh_sessions w root entries false ids s)
unfolding refresh_sessions
refresh_sessions_untrusted w root entries [] id s l h found = found
refresh_sessions_untrusted w root entries (i ∷ ids) id s l h found =
    refresh_sessions_untrusted w root entries ids id (refresh_session w root entries false i s) l h
      (refresh_session_untrusted w root entries i id s l h found)

-- While a root's discovery cannot be trusted, its refresh keeps the lifecycle of a session that no
-- source has as it is: no grace begins, and none ends.
pub untrusted_refresh_keeps :
    (w : World) (root id : String) (s : Supervisor) (l : SessionLifecycle)
    → discovery_authoritative root s ≡ false
    → is_seen w root (live_entries_of root s) id ≡ false
    → Finds (root, id) (some l) s
    → Finds (root, id) (some l) (refresh_root_records w root s)
unfolding refresh_root_records
untrusted_refresh_keeps w root id s l untrusted h found =
    subst
      (λ a.
        Finds (root, id) (some l)
          (refresh_sessions w root (live_entries_of root s) a (candidates w root s) s))
      (sym untrusted)
      (refresh_sessions_untrusted w root (live_entries_of root s) (candidates w root s) id s l h
        found)

lookup-put_here :
    {V : Type 0} (root : String) (v : V) (d : Dict String V) → lookup root (put root v d) ≡ some v
lookup-put_here root v d = rw (lookup-put root root v d, beq_refl root)

untouched :
    (v : World) (root : String) (t : Supervisor)
    → discovery_due v root t ≡ false
    → refresh_discovery_if_due v root t ≡ t
unfolding refresh_discovery_if_due
untouched v root t h = rw h refl

module _ (w : World) (root : String) (s : Supervisor) (due : discovery_due w root s ≡ true) where
  refreshed :
      refresh_discovery_if_due w root s
      ≡ record_discovery w root (discover_claude w.py (w.run_discovery root)) s
  unfolding refresh_discovery_if_due
  refreshed = rw due refl

  authoritative_of :
      discovery_authoritative root
        (record_discovery w root (discover_claude w.py (w.run_discovery root)) s)
      ≡ is_authoritative (discover_claude w.py (w.run_discovery root)).outcome
  unfolding discovery_authoritative record_discovery
  authoritative_of = rw (
    lookup-put_here root (discover_claude w.py (w.run_discovery root)) s.discovery_results,
    discovery_authoritative,
  )

  -- A discovery that fails keeps what the last one that could be trusted has filed, and the root
  -- counts as untrusted.
  pub failed_discovery_keeps :
      is_authoritative (discover_claude w.py (w.run_discovery root)).outcome ≡ false
      → (live_entries_of root (refresh_discovery_if_due w root s) ≡ live_entries_of root s)
        × (discovery_authoritative root (refresh_discovery_if_due w root s) ≡ false)
  unfolding record_discovery live_entries_of
  failed_discovery_keeps failed = (
    ap (live_entries_of root) refreshed ∙ rw failed refl,
    ap (discovery_authoritative root) refreshed ∙ authoritative_of ∙ failed,
  )

  not_due :
      (v : World)
      → v.monotonic < w.monotonic + s.discovery_interval
      → discovery_due v root
          (record_discovery w root (discover_claude w.py (w.run_discovery root)) s)
        ≡ false
  unfolding discovery_due record_discovery
  not_due v early =
      rw (lookup-put_here root w.monotonic s.last_discovery_at, discovery_due) (ground arith)

  -- A root whose discovery was run is not asked again before the interval is over.
  pub refresh_discovery_if_due_again :
      (v : World)
      → v.monotonic < w.monotonic + s.discovery_interval
      → refresh_discovery_if_due v root (refresh_discovery_if_due w root s)
        ≡ refresh_discovery_if_due w root s
  refresh_discovery_if_due_again v early =
      subst (λ t. refresh_discovery_if_due v root t ≡ t) (sym refreshed)
        (untouched v root _ (not_due v early))
