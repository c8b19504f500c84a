-- ===== src/Connection/Safety.antt =====
-- The futures that a poll of `serve_http_connection` may poll (src/http.rs).
use hyper_server.Prelude.{ℕ, ◌≤◌, Option, none, some, List, Result}
use hyper_server.Future.{Polled, panics, waits, completes, map_polled, Stays, IsSound}
use hyper_server.Fuse.{settle, poll_fuse}
use hyper_server.Fuse.Once.{IsPollable}
use hyper_server.Connection.Select.{Round, Ends}
use hyper_server.Connection.Rounds.{armed, poll_serving-Ends}
use hyper_server.Connection.{
  SleepOrPending, created, sleeping, pending_for_ever, returned, Branch, conn_branch, sleep_branch,
  sig_branch, Fired, conn_ended, age_reached, signal_received, Serving, Parts, after_timer,
  poll_sleep, poll_branch, age_handler, sig_handler, poll_serving,
}

module _ {Cx C E Duration Timer W : Type 0} (parts : Parts Cx C E Duration Timer W)
    (LiveConn : C → Type 0) (LiveTimer : Timer → Type 0) (LiveChanged : W → Type 0) where
  -- The parts keep the contract of `Future`, and a graceful shutdown or a start does no harm to it.
  pub record SoundParts : Type 0 where
    pub connection : IsSound parts.connection LiveConn
    pub graceful_shutdown : (c : C) → LiveConn c → LiveConn (parts.graceful_shutdown c)
    pub start_sleep : (d : Duration) (cx : Cx) → LiveTimer (parts.start_sleep d cx)
    pub timer : IsSound parts.timer LiveTimer
    pub changed : IsSound parts.changed LiveChanged

  abbrev pub SleepLive : SleepOrPending Duration Timer → Type 0
  SleepLive (created w) = Unit
  SleepLive (sleeping t) = LiveTimer t
  SleepLive pending_for_ever = Unit
  SleepLive returned = ⊥

  -- Everything that the next poll may poll has not completed.
  pub record ServingLive (s : Serving C Duration Timer W) : Type 0 where
    pub conn : LiveConn s.conn
    pub sleep : SleepLive s.sleep
    pub sig : IsPollable LiveChanged s.sig

  -- Between a branch that fires and its handler.
  abbrev AfterFired : Fired E → Serving C Duration Timer W → Type 0
  AfterFired (conn_ended r) t = Unit
  AfterFired age_reached t = LiveConn t.conn × IsPollable LiveChanged t.sig
  AfterFired signal_received t = ServingLive t

  module _ (sound : SoundParts) where
    branch-ServingLive :
        (cx : Cx) (b : Branch) (s : Serving C Duration Timer W)
        → ServingLive s
        → Round ⊥ ServingLive AfterFired (poll_branch parts b s cx)
    unfolding poll_branch poll_sleep poll_fuse
    branch-ServingLive cx conn_branch s h =
        go (parts.connection.poll s.conn cx) (sound.connection s.conn cx h.conn)
      where
        go :
            (r : Polled C (Result E (Unit {0})))
            → Stays LiveConn r
            → Round ⊥ ServingLive AfterFired (map_polled (λ c. record s { conn = c }) conn_ended r)
        go panics k = k
        go (waits c) k = record { conn = k; sleep = h.sleep; sig = h.sig }
        go (completes r c) k = tt
    branch-ServingLive cx sleep_branch s h = go s.sleep h.sleep
      where
        timed :
            (r : Polled Timer (Unit {0}))
            → Stays LiveTimer r
            → Round ⊥ ServingLive AfterFired
                (map_polled (λ z. record s { sleep = z }) (λ _. age_reached) (after_timer parts r))
        timed panics k = k
        timed (waits t) k = record { conn = h.conn; sleep = k; sig = h.sig }
        timed (completes a t) k = (h.conn, h.sig)

        go :
            (z : SleepOrPending Duration Timer)
            → SleepLive z
            → Round ⊥ ServingLive AfterFired (
                map_polled (λ y. record s { sleep = y }) (λ _. age_reached) (poll_sleep parts z cx))
        go (created (some wait)) k =
            timed (parts.timer.poll (parts.start_sleep wait cx) cx)
              (sound.timer (parts.start_sleep wait cx) cx (sound.start_sleep wait cx))
        go (created none) k = record { conn = h.conn; sleep = tt; sig = h.sig }
        go (sleeping t) k = timed (parts.timer.poll t cx) (sound.timer t cx k)
        go pending_for_ever k = record { conn = h.conn; sleep = tt; sig = h.sig }
        go returned k = k
    branch-ServingLive cx sig_branch s h = inside s.sig.inner h.sig
      where
        watched :
            (r : Polled W (Unit {0}))
            → Stays LiveChanged r
            → Round ⊥ ServingLive AfterFired
                (map_polled (λ g. record s { sig = g }) (λ _. signal_received) (settle r))
        watched panics k = k
        watched (waits w) k = record { conn = h.conn; sleep = h.sleep; sig = k }
        watched (completes a w) k = record { conn = h.conn; sleep = h.sleep; sig = tt }

        inside :
            (o : Option W)
            → IsPollable LiveChanged (record { inner = o })
            → Round ⊥ ServingLive AfterFired (
                map_polled
                  (λ g. record s { sig = g })
                  (λ _. signal_received)
                  (poll_fuse parts.changed (record { inner = o }) cx))
        inside (some w) k = watched (parts.changed.poll w cx) (sound.changed w cx k)
        inside none k = record { conn = h.conn; sleep = h.sleep; sig = tt }

    -- If hyper's connection, the timer and the signal keep the contract of `Future`, a poll of
    -- `serve_http_connection` with none of them completed does not panic, in whatever order the branches
    -- are polled, and leaves none completed that it may poll again.
    pub poll_serving-Stays :
        (draws : ℕ → List Branch) (s : Serving C Duration Timer W) (cx : Cx)
        → ServingLive s
        → Stays ServingLive (poll_serving parts draws s cx)
    unfolding age_handler sig_handler
    poll_serving-Stays draws s cx h =
        ended (poll_serving parts draws s cx)
          (poll_serving-Ends parts ⊥ ServingLive (λ _. Unit) AfterFired (λ r t q. tt)
            (λ t q. record { conn = sound.graceful_shutdown t.conn q.0; sleep = tt; sig = q.1 })
            (λ t q. record {
              conn = sound.graceful_shutdown t.conn q.conn;
              sleep = q.sleep;
              sig = q.sig;
            })
            cx (branch-ServingLive cx) draws s h).1
      where
        ended :
            (r : Polled (Serving C Duration Timer W) (Unit {0}))
            → Ends parts ⊥ cx (λ n t. (armed t ≤ n) × ServingLive t) (λ _. Unit) r
            → Stays ServingLive r
        ended panics k = k
        ended (waits t) k = k.1.1
        ended (completes a t) k = tt
