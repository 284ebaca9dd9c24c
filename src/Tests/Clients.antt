-- ===== src/Tests/Clients.antt =====
-- Runs of the JSON-RPC client.
use agent_keepalive.Codex.{thread_status}
use agent_keepalive.Codex.Noticed.{Raises, poll_all, reader_loop-Raises}
use agent_keepalive.Codex.Session.{
  greatest_thread, is_loaded_thread, key_before, new_session, select_recent_thread, thread_key,
}
use agent_keepalive.Json.{end, field, find, get, has_key, int, obj, str}
use agent_keepalive.Prelude.{[], err, ok, pos, refl, some, timeout_error, true, ℕ, ◌∷◌, ◌≡◌}
use agent_keepalive.Python.{int_of}
use agent_keepalive.Rpc.{
  Rpc, RpcLibrary, after_turn, check_open, deliver_answer, deliver_to, dispatch_message,
  dispatch_value, drop_adding, drop_first, drop_id, first_adding, is_response, load_next,
  new_client, read_id, reader_loop, register, store_next, turn_of,
}
use agent_keepalive.Rpc.Closing.{Settled, reader_loop-Settled}
use agent_keepalive.Rpc.Once.{answered_once}
use agent_keepalive.Rpc.Steps.{
  OneAtATime, Tracked, after_step, alone, at_start, step_check, step_load, step_read, step_read_id,
  step_register, step_store,
}
use agent_keepalive.Tests.Data.{sample_py}
use agent_keepalive.Ws.Events.{text_event}

abbrev sample_rpc : RpcLibrary
sample_rpc = record {
  rpc_python = sample_py;
  load_message = λ text. ok (obj (field "id" (int (pos 1)) (field "result" (str text) end)));
  exception_text = λ e. "gone";
}

-- A request on its own, until its id is in the table.
abbrev requested : ℕ → Rpc → Rpc
requested k r = register k (store_next k (load_next k (read_id (check_open r))))

-- Two requests wait.
abbrev two_waiting : Rpc
two_waiting = requested 2 (requested 1 new_client)

requested-OneAtATime :
    (k : ℕ) (r : Rpc)
    → OneAtATime sample_rpc r
    → alone (check_open r) ≡ true
    → alone (read_id (check_open r)) ≡ true
    → alone (load_next k (read_id (check_open r))) ≡ true
    → alone (store_next k (load_next k (read_id (check_open r)))) ≡ true
    → alone (requested k r) ≡ true
    → OneAtATime sample_rpc (requested k r)
requested-OneAtATime k r h a b c d e =
    after_step
      (after_step
        (after_step (after_step (after_step h step_check a) step_read_id b) (step_load k) c)
        (step_store k) d)
      (step_register k) e

two_waiting-OneAtATime : OneAtATime sample_rpc two_waiting
unfolding alone check_open read_id load_next drop_first store_next first_adding drop_adding register
two_waiting-OneAtATime =
    requested-OneAtATime 2 (requested 1 new_client)
      (requested-OneAtATime 1 new_client at_start refl refl refl refl refl) refl refl refl refl refl

answered_once_example :
    Tracked
      (after_turn sample_rpc
        (turn_of sample_rpc (ok (some (text_event "yes"))) two_waiting)
        two_waiting)
      1
unfolding alone after_turn turn_of dispatch_value dispatch_message is_response has_key int_of get
    find deliver_to deliver_answer register store_next load_next read_id check_open first_adding
    drop_first drop_adding drop_id
answered_once_example =
    answered_once sample_rpc
      (after_turn sample_rpc (turn_of sample_rpc (ok (some (text_event "yes"))) two_waiting)
        two_waiting)
      1 (after_step two_waiting-OneAtATime (step_read (ok (some (text_event "yes")))) refl)

-- Two callers that read their id before either stores the next one get the same id.
same_id_twice :
    (store_next 1 (
      store_next 1
        (load_next 1 (load_next 1 (read_id (read_id (check_open (check_open new_client)))))))).begun
    ≡ 1 ∷ 1 ∷ []
unfolding store_next first_adding load_next read_id check_open drop_first drop_adding
same_id_twice = refl

reader_loop-Settled_example : Settled 2 (
    reader_loop sample_rpc
      (ok (some (text_event "yes")) ∷ err (timeout_error "timed out") ∷ [])
      two_waiting)
unfolding register store_next first_adding load_next read_id check_open
reader_loop-Settled_example =
    reader_loop-Settled sample_rpc (ok (some (text_event "yes")) ∷ []) (timeout_error "timed out")
      two_waiting 2 refl

reader_loop-Raises_example :
    Raises
      (poll_all sample_py
        (reader_loop sample_rpc
          (ok (some (text_event "yes")) ∷ err (timeout_error "timed out") ∷ [])
          two_waiting).notifications
        5000000
        (new_session "t1" "/s")).0
reader_loop-Raises_example =
    reader_loop-Raises sample_rpc (ok (some (text_event "yes")) ∷ []) (timeout_error "timed out")
      two_waiting sample_py 5000000 (new_session "t1" "/s")

-- The thread that is loaded goes before a later one that is not.
loaded_first :
    select_recent_thread sample_py ("b" ∷ []) (
      field "id" (str "a") (
        field "updatedAt"
          (int (pos 9))
          (field "status" (obj (field "type" (str "notLoaded") end)) end))
      ∷ field "id" (str "b") (
          field "updatedAt"
            (int (pos 3))
            (field "status" (obj (field "type" (str "notLoaded") end)) end))
      ∷ [])
    ≡ ok (
        field "id" (str "b") (
          field "updatedAt"
            (int (pos 3))
            (field "status" (obj (field "type" (str "notLoaded") end)) end)))
unfolding select_recent_thread greatest_thread thread_key is_loaded_thread key_before thread_status
    int_of get find
loaded_first = refl
