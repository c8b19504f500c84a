-- ===== src/Server/Dropped.antt =====
-- The main future of `serve_http_with_shutdown` dropped by its caller, or unwound, with tasks that are
-- still running (src/http.rs).
use mathlib.Core.Path.{subst}
use hyper_server.Prelude.{ℕ, ◌+◌, ◌≡◌, sym, ◌∙◌, Bool, true, Option, none, List, Result, All}
use hyper_server.Future.{waits}
use hyper_server.Stream.{Arrival}
use hyper_server.Watch.{IsWatch}
use hyper_server.Connection.{Branch, sig_branch, Serving}
use hyper_server.Connection.Rounds.{sleep_armed, sig_armed}
use hyper_server.Connection.Shutdowns.{Counts}
use hyper_server.Connection.Listed.{Listed}
use hyper_server.Task.{Host, serving, Watcher, parts, poll_task}
use hyper_server.Task.Finishing.{Heeds-Holder, Prompt}
use hyper_server.Server.Invariant.{total_live, Inv, drop_main-Inv}
use hyper_server.Server.Shutdown.{graceful-run, started-Inv}
use hyper_server.Server.Frame.{graceful-drop_main, tasks-drop_main, is_sent-drop_main}
use hyper_server.Server.Holding.{run-Holds}
use hyper_server.Server.Covers.{Heed, polls_of, IsOpen, Covers}
use hyper_server.Server.Shutting.{Shutting, run-Covers}
use hyper_server.Server.Broadcast.{changed_is_taken}
use hyper_server.Server.{Server, Turn, is_some, start, drop_main, run}

module _ (host : Host) where
  open host use {IO, IE, Cx, Conn, Duration, Timer, Signal, watch}

  module _ (laws : IsWatch watch) (signal : Option Signal) (tls : Bool)
      (incoming : List (Arrival (Result IE IO))) (turns : List (Turn host)) where
    dropped-Inv : Inv host (drop_main host (run host turns (start host signal tls incoming)))
    dropped-Inv = drop_main-Inv host laws _ (started-Inv host laws signal tls incoming turns)

    -- The watch channel being as documented: when the main future has been dropped, in whatever
    -- phase, a connection that is polled with the signal's branch among those of each `select!`,
    -- and goes on, has taken the end of the channel for the signal. The requests for a graceful
    -- shutdown that hyper has had and the age timer, if it has not fired, are then together one
    -- more than before if the signal had not been taken, and as many if it had.
    drop_reaches_connections :
        (asked : Conn → ℕ)
        → Counts (parts host) asked
        → (draws : ℕ → List Branch) → ((n : ℕ) → Listed sig_branch (draws n))
        → (cx : Cx) (s t : Serving Conn Duration Timer Watcher)
        → poll_task host
            (drop_main host (run host turns (start host signal tls incoming))).graceful
            tls
            draws
            (serving s)
            (cx, (drop_main host (run host turns (start host signal tls incoming))).channel)
          ≡ waits (serving t)
        → (t.sig.inner ≡ none)
          × (asked t.conn + sleep_armed t.sleep
              ≡ asked s.conn + sleep_armed s.sleep + sig_armed s.sig)
    drop_reaches_connections asked counts draws listed cx s t =
        changed_is_taken host _ tls _ (dropped-Inv.changed ∙ is_sent-drop_main host _) asked counts
          draws listed cx s t

  module _ (Closing : Conn → Type 0) (left : Conn → ℕ) (rounds : host.Handshake → ℕ)
      (most_left most_rounds : ℕ) (prompt : Prompt host Closing left rounds most_left most_rounds)
      (laws : IsWatch watch) where
    -- The watch channel being as documented, if connections that are asked to shut down close
    -- within a bound, and handshakes end within a bound: when the main future of a server with a
    -- signal is dropped or has been unwound, an execution that gives each task as many polls as it
    -- may need, with the branches of the connection and of the signal in their rounds, ends with
    -- every task gone.
    pub dropped_server_closes_connections :
        (signal : Option Signal) (tls : Bool) (incoming : List (Arrival (Result IE IO)))
        (before after : List (Turn host))
        → is_some host signal ≡ true
        → All IsOpen after
        → Covers host Closing left rounds most_left most_rounds
            (λ i. polls_of i after)
            (drop_main host (run host before (start host signal tls incoming))).tasks
        → total_live
            (run host after
              (drop_main host (run host before (start host signal tls incoming)))).tasks
          ≡ 0
    unfolding start
    dropped_server_closes_connections signal tls incoming before after g opened covers =
        (run-Covers host Closing left rounds most_left most_rounds prompt laws after _ shutting
          opened covers).1
      where
        s : Server host
        s = run host before (start host signal tls incoming)

        graceful : s.graceful ≡ true
        graceful = graceful-run host before (start host signal tls incoming) ∙ g

        heed : All (Heed host Closing left rounds most_left most_rounds) s.tasks
        heed =
            run-Holds host _ (Heeds-Holder host Closing left rounds most_left most_rounds prompt)
              before (start host signal tls incoming) g tt

        shutting :
            Shutting host Closing left rounds most_left most_rounds prompt laws (drop_main host s)
        shutting = record {
          inv = drop_main-Inv host laws s (started-Inv host laws signal tls incoming before);
          graceful = graceful-drop_main host s ∙ graceful;
          left_loop = is_sent-drop_main host s;
          heed =
              subst (All (Heed host Closing left rounds most_left most_rounds))
                (sym (tasks-drop_main host s)) heed;
        }
