-- ===== src/Server/InFlight.antt =====
-- The requests that are in flight when `serve_http_with_shutdown` shuts down (src/http.rs).
use mathlib.Core.Path.{subst}
use hyper_server.Prelude.{
  ℕ, zero, suc, ◌≤◌, ◌≡◌, refl, sym, ap, ◌∙◌, ◌⊎◌, Bool, true, false, Option, some, List, [], ◌∷◌,
  Result, All, get_elem?, if◌then◌else◌, arith,
}
use hyper_server.Future.{Polled, panics, waits, completes, Stays, IsSound}
use hyper_server.Stream.{Arrival}
use hyper_server.Transport.{Transport}
use hyper_server.Watch.{IsWatch}
use hyper_server.Connection.{start_serving, poll_serving}
use hyper_server.Connection.Select.{Round}
use hyper_server.Connection.ServedOut.{Drawn}
use hyper_server.Connection.Safety.{SoundParts, ServingLive, poll_serving-Stays}
use hyper_server.Connection.Requests.{
  Fate, panicked, goes_on, returned, fate, fate_of, Answers, requests_are_answered,
}
use hyper_server.Task.{Host, Task, serving, parts, poll_changed, receiver, Watcher}
use mathlib.Core.Option
use hyper_server.Fuse.Once.{IsPollable}
use hyper_server.Task.Holding.{Serves, Holds, Holder}
use hyper_server.Server.Invariant.{live, total_live}
use hyper_server.Server.Shutdown.{run-Inv, started-Inv, returned-Inv}
use hyper_server.Server.Lives.{polls_in, task_of, connection_lives_by_its_polls}
use hyper_server.Server.Holding.{run-Holds}
use hyper_server.Server.{Phase, Server, Turn, start, run}

module _ (host : Host) (LiveConn : host.Conn → Type 0) (LiveTimer : host.Timer → Type 0) where
  open host use {IO, IE, TlsStream, Cx, Duration, Signal, watch}

  -- hyper's connection and tokio's timer keep the contract of `Future`.
  pub record SoundHost : Type 0 where
    pub connection : IsSound host.connection LiveConn
    pub serve_connection :
        (transport : Transport IO TlsStream) → LiveConn (host.serve_connection transport)
    pub graceful_shutdown : (c : host.Conn) → LiveConn c → LiveConn (host.graceful_shutdown c)
    pub start_sleep : (d : Duration) (cx : Cx) → LiveTimer (host.start_sleep d cx)
    pub timer : IsSound host.timer LiveTimer

  abbrev Live : Serves host → Type 0
  Live = ServingLive (parts host) LiveConn LiveTimer (λ w. Unit)

  module _ (sound : SoundHost) where
    sound_parts : SoundParts (parts host) LiveConn LiveTimer (λ w. Unit)
    unfolding poll_changed
    sound_parts = record {
      connection = λ c (cx, channel) h. sound.connection c cx h;
      graceful_shutdown = sound.graceful_shutdown;
      start_sleep = λ d (cx, channel). sound.start_sleep d cx;
      timer = λ t (cx, channel) h. sound.timer t cx h;
      changed = λ w (cx, channel) h. heard w (watch.has_changed channel);
    }
      where
        heard :
            (w : Watcher) (b : Bool)
            → Stays {F = Watcher} {A = Unit {0}}
                (λ w. Unit {0})
                (if b then completes tt w else waits w)
        heard w true = tt
        heard w false = tt

    Live-Holder : (graceful : Bool) → Holder host Live graceful
    unfolding start_serving
    Live-Holder graceful = record {
      fresh = λ transport. record {
        conn = sound.serve_connection transport;
        sleep = tt;
        sig = watched graceful;
      };
      kept = λ draws cx s h.
          goes _ (
            poll_serving-Stays (parts host) LiveConn LiveTimer (λ w. Unit) sound_parts draws s cx
              h);
    }
      where
        watched :
            (g : Bool)
            → IsPollable (λ w. Unit) (record { inner = Option.map (λ w. w) (receiver host g) })
        watched true = tt
        watched false = tt

        goes :
            (r : Polled (Serves host) (Unit {0}))
            → Stays Live r
            → Round Unit Live (λ _ _. Unit {0}) r
        goes panics k = tt
        goes (waits t) k = k
        goes (completes u t) k = tt

    -- What a live connection has become.
    abbrev Lasts : Fate (Serves host) → Type 0
    Lasts panicked = ⊥
    Lasts (goes_on t) = Live t
    Lasts (returned t) = Unit

    fate-Lasts :
        (polls : List (Drawn (parts host))) (s : Serves host)
        → Live s
        → Lasts (fate (parts host) polls s)
    unfolding fate
    fate-Lasts [] s h = h
    fate-Lasts ((cx, draws) ∷ polls) s h =
        go (poll_serving (parts host) draws s cx)
          (poll_serving-Stays (parts host) LiveConn LiveTimer (λ w. Unit) sound_parts draws s cx h)
          (fate-Lasts polls)
      where
        go :
            (r : Polled (Serves host) (Unit {0}))
            → Stays Live r
            → ((t : Serves host) → Live t → Lasts (fate (parts host) polls t))
            → Lasts (fate_of (parts host) r (fate (parts host) polls))
        go panics k next = k
        go (waits t) k next = next t k
        go (completes u t) k next = tt

    same : (u t : Task host) → some u ≡ some t → u ≡ t
    same u t e = cc

    at_holds :
        (P : Task host → Type 0) (i : ℕ) (ts : List (Task host)) (t : Task host)
        → All P ts
        → get_elem? ts i ≡ some t
        → P t
    at_holds P i [] t h e = cc
    at_holds P zero (u ∷ ts) t h e = subst P (same u t e) h.0
    at_holds P (suc i) (u ∷ ts) t h e = at_holds P i ts t h.1 e

    gone :
        (i : ℕ) (ts : List (Task host)) (t : Task host)
        → total_live ts ≡ 0
        → get_elem? ts i ≡ some t
        → live t ≡ 0
    gone i [] t h e = cc
    gone zero (u ∷ ts) t h e = ap live (sym (same u t e)) ∙ omega (arith, h)
    gone (suc i) (u ∷ ts) t h e = gone i ts t (omega (arith, h)) e

    ended :
        (f : Fate (Serves host))
        → Lasts f
        → live {host = host} (task_of host f) ≡ 0
        → (t : Serves host) × (f ≡ returned t)
    ended panicked l e = absurd l
    ended (goes_on t) l e = absurd (omega (arith, e))
    ended (returned t) l e = (t, refl)

    module _ (taken answered : host.Conn → ℕ) (Failed : host.Conn → Type 0)
        (answers : Answers (parts host) taken answered Failed) (laws : IsWatch watch) where
      -- The watch channel being as documented, if hyper keeps the contract of `Future` and answers each
      -- request that a connection has taken before the connection ends without an error: when a server
      -- has returned `Ok(())`, each connection that a task served at some moment of the execution has
      -- come to its end, without a panic of `serve_http_connection`, in the polls that the task had
      -- since then, and it has failed or each request is answered that it had taken at that moment or
      -- took later.
      pub shutdown_answers_requests :
          (signal : Option Signal) (tls : Bool) (incoming : List (Arrival (Result IE IO)))
          (before after : List (Turn host)) (i : ℕ) (c : Serves host)
          → get_elem? (run host before (start host signal tls incoming)).tasks i ≡ some (serving c)
          → (run host after (run host before (start host signal tls incoming))).phase
            ≡ Phase.returned
          → (t : Serves host) × (fate
                (parts host)
                (polls_in host i after (run host before (start host signal tls incoming)))
                c
              ≡ returned t)
            × (Failed t.conn ⊎ ((taken c.conn ≤ taken t.conn) × (answered t.conn ≡ taken t.conn)))
      unfolding start
      shutdown_answers_requests signal tls incoming before after i c at over =
          let (t, e) =
            ended (fate (parts host) polls c)
              (fate-Lasts polls c (at_holds (Holds host Live) i s.tasks (serving c) lives at))
              (gone i (run host after s).tasks _ nothing_left
                (connection_lives_by_its_polls host i after s c at)) in
          (t, e, (requests_are_answered (parts host) taken answered Failed answers polls c t).0 e)
        where
          s : Server host
          s = run host before (start host signal tls incoming)

          polls : List (Drawn (parts host))
          polls = polls_in host i after s

          lives : All (Holds host Live) s.tasks
          lives =
              run-Holds host Live (Live-Holder _) before (start host signal tls incoming) refl tt

          nothing_left : total_live (run host after s).tasks ≡ 0
          nothing_left =
              (returned-Inv host laws _
                (run-Inv host laws after s (started-Inv host laws signal tls incoming before))
                over).1
