-- ===== src/Supervisor/Lifecycle.antt =====
-- claude_supervisor.py, _refresh_root_records: how one session moves between seen, missing, ended
-- and removed.
use agent_keepalive.Claude.Status.{JobOutcome}
use agent_keepalive.Prelude.{
  Bool, Bool-cases, Dict, Option, Option-cases, ap, arith, beq_refl, contains, false, inl, inr,
  int_eq, leb, leb→le, lookup, lookup-put, lookup-remove, nat_eq, none, pair_eq, put, refl, remove,
  some, string_eq, text_eq, true, ℕ, ◌+◌, ◌∙◌, ◌≡◌, ◌≤◌,
}
use agent_keepalive.Snapshot.{Snapshot}
use agent_keepalive.Store.{load}
use agent_keepalive.Supervisor.Frame.{Finds}
use agent_keepalive.Supervisor.Records.{
  remove_lifecycle, signature_of, write_disappeared_record, write_snapshot_record,
}
use agent_keepalive.Supervisor.Session.{note_missing, note_snapshot, note_terminal, unretire}
use agent_keepalive.Supervisor.State.{
  Key, SessionLifecycle, Signature, Signature-discrete, Supervisor, World, gone, is_known,
}
use mathlib.Core.Path.{subst}

decided :
    (t s : Signature) (d : Dec (t ≡ s))
    → elim d as (λ _. Bool) [ yes _ ↦ true | no _ ↦ false ] ≡ true
    → t ≡ s
decided t s (yes e) h = e
decided t s (no n) h = cc

pub is_known_eq : (o : Option Signature) (s : Signature) → is_known o s ≡ true → o ≡ some s
unfolding is_known
is_known_eq none s h = cc
is_known_eq (some t) s h = ap some (decided t s (Signature-discrete t s) h)

put-here :
    (key : Key) (l : SessionLifecycle) (sessions : Dict Key SessionLifecycle)
    → lookup key (put key l sessions) ≡ some l
put-here key l sessions = rw (lookup-put key key l sessions, beq_refl key)

remove-here :
    (key : Key) (sessions : Dict Key SessionLifecycle) → lookup key (remove key sessions) ≡ none
remove-here key sessions = rw (lookup-remove key key sessions, beq_refl key)

-- A session that was seen is kept, with the signature of what was seen.
write_snapshot_record-Finds :
    (w : World) (key : Key) (l : SessionLifecycle) (snapshot : Snapshot) (outcome : JobOutcome)
    (s : Supervisor)
    → Finds key
        (some (record l { signature = some (signature_of w snapshot outcome) }))
        (write_snapshot_record w key l snapshot outcome s)
unfolding write_snapshot_record
write_snapshot_record-Finds w key l snapshot outcome s =
    elim (Bool-cases (is_known l.signature (signature_of w snapshot outcome))) [
      | inl e ↦ rw e (
          put-here key l s.sessions
          ∙ ap (λ o. some (record l { signature = o })) (is_known_eq l.signature _ e))
      | inr e ↦ rw e (put-here key _ s.sessions)
    ]

pub write_disappeared_record-Finds :
    (w : World) (key : Key) (l : SessionLifecycle) (s : Supervisor)
    → (o : Option Signature) × Finds key
        (some (record l { signature = o }))
        (write_disappeared_record w key l s)
unfolding write_disappeared_record
write_disappeared_record-Finds w key l s = elim (Option-cases (load "claude" l.target_id s.store)) [
  | inl e ↦ (l.signature, rw (e, write_disappeared_record) (put-here key l s.sessions))
  | inr (r, e) ↦
      (some (gone r.last_activity_at), rw (e, write_disappeared_record) (put-here key _ s.sessions))
]

-- Why the refresh of a session may drop it.
pub data Removal (w : World) (s : Supervisor) (key : Key) (l : SessionLifecycle)
    (authoritative seen : Bool) (terminal : Bool) : Type 0 where
  -- Discovery can be trusted, neither source has the session, and the grace is over.
  disappearance_over :
      (since : ℕ)
      → authoritative ≡ true
      → seen ≡ false
      → l.missing_since ≡ some since
      → since + s.disappearance_grace ≤ w.monotonic
      → Removal w s key l authoritative seen terminal
  -- The session has ended, and the grace is over.
  terminal_over :
      (since : ℕ)
      → seen ≡ true
      → terminal ≡ true
      → l.terminal_since ≡ some since
      → since + s.terminal_grace ≤ w.monotonic
      → Removal w s key l authoritative seen terminal
  -- The session has ended, and was dropped for that before.
  still_retired :
      seen ≡ true
      → terminal ≡ true
      → contains s.retired_terminal key ≡ true
      → Removal w s key l authoritative seen terminal

-- A session that stands under its key is not dropped.
kept {ℓ} :
    {A : Type ℓ} (key : Key) (l : SessionLifecycle) (t u : Supervisor)
    → t ≡ u
    → Finds key (some l) u
    → Finds key none t
    → A
kept key l t u e p q = absurd (cc (p, q, ap (λ (v : Supervisor). lookup key v.sessions) e))

module _ (w : World) (key : Key) (l : SessionLifecycle) (s : Supervisor) where
  pub note_missing_first :
      l.missing_since ≡ none
      → note_missing w key l s
        ≡ write_disappeared_record w key (record l { missing_since = some w.monotonic }) s
  unfolding note_missing
  note_missing_first e = rw (e, note_missing)

  pub note_missing_over :
      (since : ℕ)
      → l.missing_since ≡ some since
      → leb (since + s.disappearance_grace) w.monotonic ≡ true
      → note_missing w key l s ≡ remove_lifecycle key l false s
  unfolding note_missing
  note_missing_over since e over = ground arith

  pub note_missing_early :
      (since : ℕ)
      → l.missing_since ≡ some since
      → leb (since + s.disappearance_grace) w.monotonic ≡ false
      → note_missing w key l s ≡ s
  unfolding note_missing
  note_missing_early since e early = rw (e, note_missing) (rw early)

  pub note_missing-Removal :
      (terminal : Bool)
      → Finds key (some l) s
      → Finds key none (note_missing w key l s)
      → Removal w s key l true false terminal
  note_missing-Removal terminal p q = elim (Option-cases l.missing_since) [
    | inl e ↦
        let (o, found) =
          write_disappeared_record-Finds w key (record l { missing_since = some w.monotonic }) s in
        kept key _ _ _ (note_missing_first e) found q
    | inr (since, e) ↦ elim (Bool-cases (leb (since + s.disappearance_grace) w.monotonic)) [
      | inl over ↦ disappearance_over since refl refl e (leb→le _ _ over)
      | inr early ↦ kept key l _ s (note_missing_early since e early) p q
    ]
  ]

  module _ (snapshot : Snapshot) (outcome : JobOutcome) where
    note_terminal_first :
        l.terminal_since ≡ none
        → note_terminal w key l snapshot outcome s
          ≡ write_snapshot_record w key
              (record l { terminal_since = some w.monotonic })
              snapshot
              outcome
              s
    unfolding note_terminal
    note_terminal_first e = rw (e, note_terminal)

    note_terminal_early :
        (since : ℕ)
        → l.terminal_since ≡ some since
        → leb (since + s.terminal_grace) w.monotonic ≡ false
        → note_terminal w key l snapshot outcome s
          ≡ write_snapshot_record w key l snapshot outcome s
    unfolding note_terminal
    note_terminal_early since e early = ground arith

    note_terminal-Removal :
        (authoritative : Bool)
        → Finds key none (note_terminal w key l snapshot outcome s)
        → Removal w s key l authoritative true true
    note_terminal-Removal authoritative q = elim (Option-cases l.terminal_since) [
      | inl e ↦
          kept key _ _ _ (note_terminal_first e)
            (write_snapshot_record-Finds w key (record l { terminal_since = some w.monotonic })
              snapshot outcome s)
            q
      | inr (since, e) ↦ elim (Bool-cases (leb (since + s.terminal_grace) w.monotonic)) [
        | inl over ↦ terminal_over since refl refl e (leb→le _ _ over)
        | inr early ↦
            kept key _ _ _ (note_terminal_early since e early)
              (write_snapshot_record-Finds w key l snapshot outcome s) q
      ]
    ]

module _ (w : World) (key : Key) (l : SessionLifecycle) (snapshot : Snapshot) (outcome : JobOutcome)
    (s : Supervisor) where
  note_snapshot_live :
      snapshot.terminal ≡ false
      → note_snapshot w key l snapshot outcome s
        ≡ write_snapshot_record w key
            (record l { terminal_since = none })
            snapshot
            outcome
            (unretire key s)
  unfolding note_snapshot
  note_snapshot_live t = ground arith

  note_snapshot_ended :
      snapshot.terminal ≡ true
      → contains s.retired_terminal key ≡ false
      → note_snapshot w key l snapshot outcome s ≡ note_terminal w key l snapshot outcome s
  unfolding note_snapshot unretire
  note_snapshot_ended t r = ground arith

  pub note_snapshot-Removal :
      (authoritative : Bool)
      → Finds key none (note_snapshot w key l snapshot outcome s)
      → Removal w s key l authoritative true snapshot.terminal
  note_snapshot-Removal authoritative q = elim (Bool-cases snapshot.terminal) [
    | inl t ↦ elim (Bool-cases (contains s.retired_terminal key)) [
      | inl r ↦ still_retired refl t r
      | inr r ↦ rw t (
          note_terminal-Removal w key l s snapshot outcome authoritative
            (subst (Finds key none) (note_snapshot_ended t r) q))
    ]
    | inr t ↦
        kept key _ _ _ (note_snapshot_live t)
          (write_snapshot_record-Finds w key (record l { terminal_since = none }) snapshot outcome
            (unretire key s))
          q
  ]
