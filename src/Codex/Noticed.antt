-- ===== src/Codex/Noticed.antt =====
-- What a session reads once its connection is lost: agent_keepalive/rpc.py, _reader_loop, whose
-- notifications are read by agent_keepalive/providers/codex.py, CodexSession.poll.
use agent_keepalive.Codex.Session.{CodexSession, poll_session}
use agent_keepalive.Json.{Value, find, get, obj}
use agent_keepalive.Prelude.{
  Exception, List, Nothing, Option, Result, Stateful, String, [], err, go_on, ok, refl, some, sym,
  ◌++◌, ◌>>>◌, ◌∷◌, ◌≡◌,
}
use agent_keepalive.Python.{Python}
use agent_keepalive.Rpc.{
  Rpc, RpcLibrary, connection_closed, fail_pending, reader_failed, reader_loop, turn_of,
}
use agent_keepalive.TimeParse.{Instant}
use agent_keepalive.Ws.Events.{Event}
use mathlib.Core.Path.{subst}

-- Polling while there are notifications, one for each.
unfoldable pub poll_all : Python → List Value → (now : Instant) → Stateful CodexSession Nothing
poll_all py [] now s = (ok tt, s)
poll_all py (notification ∷ notifications) now s =
    (poll_session py (some notification) now >>> λ _. poll_all py notifications now) s

abbrev pub Raises {ℓ} : {A : Type ℓ} → Result A → Type ℓ
Raises r = (e : Exception) × (r ≡ err e)

-- The reader's last word is that the connection is closed.
abbrev LastWord : Rpc → Type 0
LastWord r =
    (earlier : List Value) × (reason : String) × (r.notifications
      ≡ earlier ++ obj (connection_closed reason) ∷ [])

reader_failed-LastWord :
    (lib : RpcLibrary) (e : Exception) (r : Rpc) → LastWord (reader_failed lib e r)
unfolding reader_failed fail_pending
reader_failed-LastWord lib e r = (r.notifications, lib.exception_text e, refl)

turn-LastWord :
    (lib : RpcLibrary) (turned : Result Rpc) (events : List (Result (Option Event))) (r : Rpc)
    → ((s : Rpc) → LastWord (reader_loop lib events s))
    → LastWord
        (elim turned [ ok next ↦ reader_loop lib events next | err e ↦ reader_failed lib e r ])
turn-LastWord lib (ok s) events r next = next s
turn-LastWord lib (err e) events r next = reader_failed-LastWord lib e r

reader_loop-LastWord :
    (lib : RpcLibrary) (e : Exception) (events : List (Result (Option Event))) (r : Rpc)
    → LastWord (reader_loop lib (events ++ err e ∷ []) r)
unfolding reader_loop turn_of
reader_loop-LastWord lib e [] r = reader_failed-LastWord lib e r
reader_loop-LastWord lib e (event ∷ events) r =
    turn-LastWord lib (turn_of lib event r) (events ++ err e ∷ []) r
      (λ s. reader_loop-LastWord lib e events s)

go_on-Raises :
    {A B : Type 0} (r : Result A × CodexSession) (f : A → Stateful CodexSession B)
    → ((a : A) (s : CodexSession) → Raises (f a s).0)
    → Raises (go_on f r).0
go_on-Raises (ok a, s) f next = next a s
go_on-Raises (err e, s) f next = (e, refl)

poll_all-Raises :
    (py : Python) (earlier : List Value) (reason : String) (now : Instant) (s : CodexSession)
    → Raises (poll_all py (earlier ++ obj (connection_closed reason) ∷ []) now s).0
unfolding poll_all poll_session connection_closed get find
poll_all-Raises py [] reason now s = (_, refl)
poll_all-Raises py (notification ∷ earlier) reason now s =
    go_on-Raises (poll_session py (some notification) now s)
      (λ _. poll_all py (earlier ++ obj (connection_closed reason) ∷ []) now)
      (λ _ after. poll_all-Raises py earlier reason now after)

-- When an exception ends the reader of a Codex connection, after whatever events, a session that
-- polls the notifications in their order raises, at the last of them if not before: the loss of the
-- connection is not missed.
pub reader_loop-Raises :
    (lib : RpcLibrary) (events : List (Result (Option Event))) (e : Exception) (r : Rpc)
    (py : Python) (now : Instant) (s : CodexSession)
    → Raises (poll_all py (reader_loop lib (events ++ err e ∷ []) r).notifications now s).0
reader_loop-Raises lib events e r py now s =
    let (earlier, reason, last_word) = reader_loop-LastWord lib e events r in
    subst (λ ns. Raises (poll_all py ns now s).0) (sym last_word)
      (poll_all-Raises py earlier reason now s)
