-- ===== src/Server/Broadcast.antt =====
-- The shutdown signal after its broadcast, at the connections (src/http.rs).
use hyper_server.Prelude.{ℕ, ◌+◌, ◌≡◌, ◌∙◌, Bool, true, Option, none, List, Result, arith}
use hyper_server.Future.{Polled, panics, waits, completes}
use hyper_server.Stream.{Arrival}
use hyper_server.Watch.{IsWatch}
use hyper_server.Connection.{Branch, sig_branch, Serving}
use hyper_server.Connection.Rounds.{sleep_armed, sig_armed}
use hyper_server.Connection.Shutdowns.{Counts}
use hyper_server.Connection.Listed.{Listed}
use hyper_server.Connection.Signal.{Delivered, signal_is_taken}
use hyper_server.Task.{
  Host, Task, serving, Watcher, TaskCx, poll_changed, parts, after_serve, poll_task,
}
use hyper_server.Server.Invariant.{Inv}
use hyper_server.Server.Shutdown.{started-Inv}
use hyper_server.Server.{Phase, Turn, start, run}

module _ (host : Host) where
  open host use {IO, IE, Cx, Conn, Duration, Timer, Signal, watch}

  abbrev IsServingAfter :
      Serving Conn Duration Timer Watcher → Polled (Task host) (Unit {0}) → Type 0
  IsServingAfter t r = r ≡ waits (serving t)

  pub delivered : (cx : TaskCx host) → watch.has_changed cx.1 ≡ true → Delivered (parts host) cx
  unfolding poll_changed
  delivered cx e w = (w, ground arith)

  waits_of_after_serve :
      (r : Polled (Serving Conn Duration Timer Watcher) (Unit {0}))
      (t : Serving Conn Duration Timer Watcher)
      → after_serve host r ≡ waits (serving t)
      → r ≡ waits t
  waits_of_after_serve panics t e = cc
  waits_of_after_serve (waits s) t e = cc
  waits_of_after_serve (completes u s) t e = cc

  -- A connection that is polled when `changed` returns, with the signal's branch in its rounds.
  pub changed_is_taken :
      (g tls : Bool) (c : host.Channel)
      → watch.has_changed c ≡ true
      → (asked : Conn → ℕ) → Counts (parts host) asked
      → (draws : ℕ → List Branch) → ((n : ℕ) → Listed sig_branch (draws n))
      → (cx : Cx) (s t : Serving Conn Duration Timer Watcher)
      → poll_task host g tls draws (serving s) (cx, c) ≡ waits (serving t)
      → (t.sig.inner ≡ none)
        × (asked t.conn + sleep_armed t.sleep
            ≡ asked s.conn + sleep_armed s.sleep + sig_armed s.sig)
  unfolding poll_task
  changed_is_taken g tls c sent asked counts draws listed cx s t r =
      signal_is_taken (parts host) (cx, c) (delivered (cx, c) sent) asked counts draws s t listed
        (waits_of_after_serve _ t r)

  module _ (laws : IsWatch watch) (signal : Option Signal) (tls : Bool)
      (incoming : List (Arrival (Result IE IO))) (turns : List (Turn host)) where
    -- The watch channel being as documented: once the main future drains, a connection that is
    -- polled with the signal's branch among those of each `select!`, and goes on, has taken the
    -- signal. The requests for a graceful shutdown that hyper has had and the age timer, if it has
    -- not fired, are then together one more than before if the signal had not been taken, and as
    -- many if it had.
    pub broadcast_reaches_connections :
        (run host turns (start host signal tls incoming)).phase ≡ Phase.draining
        → (asked : Conn → ℕ) → Counts (parts host) asked
        → (draws : ℕ → List Branch) → ((n : ℕ) → Listed sig_branch (draws n))
        → (cx : Cx) (s t : Serving Conn Duration Timer Watcher)
        → poll_task host
            (run host turns (start host signal tls incoming)).graceful
            tls
            draws
            (serving s)
            (cx, (run host turns (start host signal tls incoming)).channel)
          ≡ waits (serving t)
        → (t.sig.inner ≡ none)
          × (asked t.conn + sleep_armed t.sleep
              ≡ asked s.conn + sleep_armed s.sleep + sig_armed s.sig)
    broadcast_reaches_connections e asked counts draws listed cx s t =
        changed_is_taken _ tls _ (v.changed ∙ ground arith) asked counts draws listed cx s t
      where
        v : Inv host (run host turns (start host signal tls incoming))
        v = started-Inv host laws signal tls incoming turns
