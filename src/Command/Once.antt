-- ===== src/Command/Once.antt =====
-- Which signals `agent-keepalive stop` sends (agent_keepalive/cli.py, command_stop).
use agent_keepalive.Command.{
  Act, Commanded, Desk, Machine, Selection, ambiguous, check_alive, drop_stale, forget,
  kill_process, killed, probed_process, selected, sleep, slept, spawned,
}
use agent_keepalive.Command.Stop.{
  Remaining, StopArgs, command_stop, drop_finished, force_all, force_remaining, or_supervisor,
  pause_for, select_to_stop, signal_targets, still_running, stop_selected, stop_targets, wait_for,
}
use agent_keepalive.Prelude.{
  Bool, List, Nothing, [], ap, contains, false, holds_lift, holds_then, if_elim, if_elim_not,
  if◌then◌else◌, inl, inr, int_eq, nat_eq, not, pair_eq, put, refl, string_eq, suc, text_eq, true,
  zero, ℕ, ℤ, ◌∙◌, ◌∷◌, ◌≡◌, ◌⊎◌,
}
use agent_keepalive.Record.{KeeperRecord}
use agent_keepalive.Recovery.{sigkill, sigterm}
use agent_keepalive.Recovery.Listener.{kill_result}
use agent_keepalive.Store.{Records, process_is_alive, remove_record, remove_stale_records}

unfoldable pub sigterms : List Act → List ℤ
sigterms [] = []
sigterms (killed pid sigterm ∷ acts) = pid ∷ sigterms acts
sigterms (killed pid sigkill ∷ acts) = sigterms acts
sigterms (probed_process pid ∷ acts) = sigterms acts
sigterms (slept duration ∷ acts) = sigterms acts
sigterms (spawned command environment ∷ acts) = sigterms acts

unfoldable pub sigkills : List Act → List ℤ
sigkills [] = []
sigkills (killed pid sigterm ∷ acts) = sigkills acts
sigkills (killed pid sigkill ∷ acts) = pid ∷ sigkills acts
sigkills (probed_process pid ∷ acts) = sigkills acts
sigkills (slept duration ∷ acts) = sigkills acts
sigkills (spawned command environment ∷ acts) = sigkills acts

-- No pid stands twice.
unfoldable pub NoRepeat : List ℤ → Type 0
NoRepeat [] = Unit
NoRepeat (pid ∷ pids) = (contains pids pid ≡ false) × NoRepeat pids

-- No process has had SIGTERM twice, and none SIGKILL unless it was asked for.
abbrev pub Restrained : Bool → Desk → Type 0
Restrained forced d = NoRepeat (sigterms d.acts) × ((sigkills d.acts ≡ []) ⊎ (forced ≡ true))

module _ (machine : Machine) (forced : Bool) where
  check_alive-Restrained :
      (pid : ℤ) (d : Desk) → Restrained forced d → Restrained forced (check_alive machine pid d).1
  unfolding check_alive sigterms sigkills
  check_alive-Restrained pid d h = h

  forget-Restrained :
      (r : KeeperRecord) (d : Desk) → Restrained forced d → Restrained forced (forget r d).1
  unfolding forget
  forget-Restrained r d h = h

  sleep_for-Restrained : (n : ℕ) (d : Desk) → Restrained forced d → Restrained forced (sleep n d).1
  unfolding sleep sigterms sigkills
  sleep_for-Restrained n d h = h

  signal_targets-Restrained :
      (signaled : List ℤ) (rs : List KeeperRecord) (d : Desk)
      → sigterms d.acts ≡ signaled
      → Restrained forced d
      → Restrained forced (signal_targets machine signaled rs d).1
  unfolding signal_targets check_alive forget kill_process sigterms sigkills NoRepeat
  signal_targets-Restrained signaled [] d known h = h
  signal_targets-Restrained signaled (r ∷ rs) d known h =
      let Safe : Desk → Type 0 = Restrained forced in
      let e : Desk = record d { acts = probed_process r.pid ∷ d.acts } in
      let alive = process_is_alive (machine.probe d.acts) r.pid in
      if_elim_not {A = Commanded Nothing} (λ m. Safe (m e).1) alive _ _
        (λ _.
          signal_targets-Restrained signaled rs
            (record e { kept = remove_record r.provider r.target_id e.kept }) known h)
        (λ _.
          if_elim_not {A = Commanded Nothing} (λ m. Safe (m e).1) (contains signaled r.pid) _ _
            (λ fresh.
              let f : Desk = record e { acts = killed r.pid sigterm ∷ e.acts } in
              let now : Safe f = ((ap (λ pids. contains pids r.pid) known ∙ fresh, h.0), h.1) in
              holds_lift Safe (kill_result (machine.deliver e.acts r.pid sigterm)) f _ now (λ _ _.
                signal_targets-Restrained (r.pid ∷ signaled) rs f (ap (λ pids. r.pid ∷ pids) known)
                  now))
            (λ _. signal_targets-Restrained signaled rs e known h))

  still_running-Restrained :
      (rs : List KeeperRecord) (found : Remaining) (d : Desk)
      → Restrained forced d
      → Restrained forced (still_running machine rs found d).1
  unfolding still_running
  still_running-Restrained [] found d h = h
  still_running-Restrained (r ∷ rs) found d h =
      holds_then (Restrained forced) (check_alive machine r.pid d) _
        (check_alive-Restrained r.pid d h)
        (λ alive e k.
          still_running-Restrained rs
            (if alive then put (r.provider, r.target_id) r found else found) e k)

  drop_finished-Restrained :
      (remaining : Remaining) (d : Desk)
      → Restrained forced d
      → Restrained forced (drop_finished machine remaining d).1
  unfolding drop_finished
  drop_finished-Restrained [] d h = h
  drop_finished-Restrained ((key, r) ∷ remaining) d h =
      let Safe : Desk → Type 0 = Restrained forced in
      holds_then Safe (check_alive machine r.pid d) _ (check_alive-Restrained r.pid d h)
        λ alive e k.
          if_elim {A = Commanded Remaining} (λ m. Safe (m e).1) (not alive) _ _
            (λ _.
              holds_then Safe (forget r e) _ (forget-Restrained r e k)
                (λ _ f l. drop_finished-Restrained remaining f l))
            (λ _.
              holds_then Safe (drop_finished machine remaining e) _
                (drop_finished-Restrained remaining e k) (λ _ f l. l))

  pause_for-Restrained :
      (remaining : Remaining) (d : Desk)
      → Restrained forced d
      → Restrained forced (pause_for remaining d).1
  unfolding pause_for
  pause_for-Restrained [] d h = h
  pause_for-Restrained (entry ∷ remaining) d h = sleep_for-Restrained 200 d h

  wait_for-Restrained :
      (turns : ℕ) (remaining : Remaining) (d : Desk)
      → Restrained forced d
      → Restrained forced (wait_for machine turns remaining d).1
  unfolding wait_for
  wait_for-Restrained turns [] d h = h
  wait_for-Restrained zero (entry ∷ remaining) d h = h
  wait_for-Restrained (suc turns) (entry ∷ remaining) d h =
      let Safe : Desk → Type 0 = Restrained forced in
      holds_then Safe (drop_finished machine (entry ∷ remaining) d) _
        (drop_finished-Restrained (entry ∷ remaining) d h)
        λ left e k.
          holds_then Safe (pause_for left e) _ (pause_for-Restrained left e k)
            λ _ f l. wait_for-Restrained turns left f l

force_all-Restrained :
    (machine : Machine) (remaining : Remaining) (d : Desk)
    → Restrained true d
    → Restrained true (force_all machine remaining d).1
unfolding force_all kill_process sigterms sigkills
force_all-Restrained machine [] d h = h
force_all-Restrained machine ((key, r) ∷ remaining) d h =
    let e : Desk = record d { acts = killed r.pid sigkill ∷ d.acts } in
    holds_lift (Restrained true) (kill_result (machine.deliver d.acts r.pid sigkill)) e _
      (h.0, inr refl) (λ _ _. force_all-Restrained machine remaining e (h.0, inr refl))

force_remaining-Restrained :
    (machine : Machine) (forced : Bool) (remaining : Remaining) (d : Desk)
    → Restrained forced d
    → Restrained forced (force_remaining machine forced remaining d).1
unfolding force_remaining
force_remaining-Restrained machine forced [] d h = h
force_remaining-Restrained machine false (entry ∷ remaining) d h = h
force_remaining-Restrained machine true (entry ∷ remaining) d h =
    holds_then (Restrained true) (force_all machine (entry ∷ remaining) d) _
      (force_all-Restrained machine (entry ∷ remaining) d h)
      λ _ e k.
        holds_then (Restrained true) (sleep 200 e) _ (sleep_for-Restrained machine true 200 e k)
          (λ _ f l. l)

stop_targets-Restrained :
    (machine : Machine) (forced : Bool) (targets : List KeeperRecord) (d : Desk)
    → sigterms d.acts ≡ []
    → Restrained forced d
    → Restrained forced (stop_targets machine forced targets d).1
unfolding stop_targets
stop_targets-Restrained machine forced targets d none_sent h =
    let Safe : Desk → Type 0 = Restrained forced in
    holds_then Safe (signal_targets machine [] targets d) _
      (signal_targets-Restrained machine forced [] targets d none_sent h)
      λ _ e k.
        holds_then Safe (still_running machine targets [] e) _
          (still_running-Restrained machine forced targets [] e k)
          λ at_work f l.
            holds_then Safe (wait_for machine (machine.turns_left f.acts) at_work f) _
              (wait_for-Restrained machine forced (machine.turns_left f.acts) at_work f l)
              λ left g m.
                holds_then Safe (force_remaining machine forced left g) _
                  (force_remaining-Restrained machine forced left g m) λ _ i n. n

stop_selected-Restrained :
    (machine : Machine) (forced : Bool) (s : Selection) (d : Desk)
    → sigterms d.acts ≡ []
    → Restrained forced d
    → Restrained forced (stop_selected machine forced s d).1
unfolding stop_selected
stop_selected-Restrained machine forced ambiguous d none_sent h = h
stop_selected-Restrained machine forced (selected []) d none_sent h = h
stop_selected-Restrained machine forced (selected (r ∷ rs)) d none_sent h =
    stop_targets-Restrained machine forced (or_supervisor d.kept (r ∷ rs)) d none_sent h

-- Whatever the store holds and the system answers, `stop` sends SIGTERM to no process twice, also
-- when several targets are one process's, and SIGKILL to none unless --force was given.
pub command_stop-Restrained :
    (machine : Machine) (args : StopArgs) (kept : Records)
    → Restrained args.force (command_stop machine args (record { kept = kept; acts = [] })).1
unfolding command_stop drop_stale stop_selected sigterms sigkills NoRepeat
command_stop-Restrained machine args kept =
    let d : Desk = record { kept = remove_stale_records (machine.probe []) kept; acts = [] } in
    stop_selected-Restrained machine args.force (select_to_stop args d.kept) d refl (tt, inl refl)
