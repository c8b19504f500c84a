-- ===== src/Server/Contract.antt =====
-- `serve_http_with_shutdown` from its call to its return, with a signal that fires (src/http.rs).
use hyper_server.Prelude.{
  ℕ, ◌+◌, ◌<◌, ◌≤◌, ◌≡◌, refl, sym, ap, ◌∙◌, ◌⊎◌, inl, inr, Bool, Option, none, some, List, [], ◌∷◌,
  ◌++◌, Result, All, length, get_elem?,
}
use hyper_server.Future.{Finishes}
use hyper_server.Stream.{Arrival}
use hyper_server.Watch.{IsWatch}
use hyper_server.Connection.Requests.{returned, fate, Answers}
use hyper_server.Task.{Host, Task, spawned, handshaking, serving, finished, parts}
use hyper_server.Task.Holding.{Serves}
use hyper_server.Task.Finishing.{Prompt}
use hyper_server.Server.Invariant.{total_live}
use hyper_server.Server.Frame.{run-append}
use hyper_server.Server.Shutdown.{started-Inv, returned-Inv}
use hyper_server.Server.Covers.{polls_of, IsOpen, Covers}
use hyper_server.Server.Completion.{shutdown_completes}
use hyper_server.Server.Stopped.{Drains, returned_stays}
use hyper_server.Server.Progress.{main_turns}
use hyper_server.Server.Signalled.{signal_ends_the_loop}
use hyper_server.Server.Lives.{polls_in}
use hyper_server.Server.InFlight.{SoundHost, shutdown_answers_requests}
use hyper_server.Server.{
  Phase, First, Server, Turn, main, task, start, main_turn, task_turn, turn, run,
}

module _ (host : Host) where
  open host use {IO, IE, Cx, Signal, watch}

  run-returned :
      (ts : List (Turn host)) (s : Server host)
      → s.phase ≡ Phase.returned
      → (run host ts s).phase ≡ Phase.returned
  unfolding run turn task_turn
  run-returned [] s e = e
  run-returned (main first cx ∷ ts) s e =
      run-returned ts (main_turn host first cx s) (returned_stays host first cx s e)
  run-returned (task i draws cx ∷ ts) s e = run-returned ts (task_turn host i draws cx s) e

  module _ (taken answered : host.Conn → ℕ) (Failed : host.Conn → Type 0) where
    -- What has become of the task at an index, if it served a connection, after the turns that follow.
    abbrev pub Settled : List (Turn host) → Server host → ℕ → Option (Task host) → Type 0
    Settled later s i (some (serving c)) =
        (t : Serves host) × (fate (parts host) (polls_in host i later s) c ≡ returned t)
        × (Failed t.conn ⊎ ((taken c.conn ≤ taken t.conn) × (answered t.conn ≡ taken t.conn)))
    Settled later s i _ = Unit

  module _ (Closing : host.Conn → Type 0) (left : host.Conn → ℕ) (rounds : host.Handshake → ℕ)
      (most_left most_rounds : ℕ) (prompt : Prompt host Closing left rounds most_left most_rounds)
      (laws : IsWatch watch) (LiveConn : host.Conn → Type 0) (LiveTimer : host.Timer → Type 0)
      (sound : SoundHost host LiveConn LiveTimer) (taken answered : host.Conn → ℕ)
      (Failed : host.Conn → Type 0) (answers : Answers (parts host) taken answered Failed)
      (shutdown_rx : Signal) (n : ℕ) (finishes : Finishes host.signal n shutdown_rx tt) where
    module _ (tls : Bool) (incoming : List (Arrival (Result IE IO))) where
      abbrev started : Server host
      started = start host (some shutdown_rx) tls incoming

      settled :
          (earlier later : List (Turn host)) (i : ℕ)
          → (run host later (run host earlier started)).phase ≡ Phase.returned
          → Settled taken answered Failed later
              (run host earlier started)
              i
              (get_elem? (run host earlier started).tasks i)
      settled earlier later i over = go (get_elem? (run host earlier started).tasks i) refl
        where
          go :
              (o : Option (Task host))
              → get_elem? (run host earlier started).tasks i ≡ o
              → Settled taken answered Failed later (run host earlier started) i o
          go none e = tt
          go (some (spawned r)) e = tt
          go (some (handshaking h)) e = tt
          go (some finished) e = tt
          go (some (serving c)) e =
              shutdown_answers_requests host LiveConn LiveTimer sound taken answered Failed answers
                laws (some shutdown_rx) tls incoming earlier later i c e over

      -- The parts being as documented, if the signal fires after so many polls, connections that are
      -- asked to shut down close within a bound, and handshakes end within a bound: when the main future
      -- has had a turn more than those polls and the arrivals of the incoming stream, and then each task
      -- as many polls as it may need, with the branches of the connection and of the signal in their
      -- rounds, in any interleaving and any order of the branches, the next turn of the main future
      -- returns `Ok(())` and no task is left. At whatever moment of the execution one looks at whatever
      -- task: if it serves a connection then, that connection comes to its end without a panic in the
      -- polls that follow, and it fails or answers each request that it had taken.
      pub graceful_shutdown_keeps_its_promise :
          (before after : List (Turn host)) (first : First) (cx : Cx)
          → n + length incoming < main_turns before
          → All IsOpen after
          → Covers host Closing left rounds most_left most_rounds
              (λ i. polls_of i after)
              (run host before (start host (some shutdown_rx) tls incoming)).tasks
          → (earlier later : List (Turn host))
          → earlier ++ later ≡ before ++ (after ++ main first cx ∷ [])
          → (i : ℕ)
          → ((run host (earlier ++ later) (start host (some shutdown_rx) tls incoming)).phase
              ≡ Phase.returned)
            × (total_live
                  (run host (earlier ++ later) (start host (some shutdown_rx) tls incoming)).tasks
                ≡ 0)
            × Settled taken answered Failed later
                (run host earlier (start host (some shutdown_rx) tls incoming))
                i
                (get_elem? (run host earlier (start host (some shutdown_rx) tls incoming)).tasks i)
      unfolding run turn
      graceful_shutdown_keeps_its_promise before after first cx enough opened covers earlier later
            whole i =
          (
            over,
            (returned-Inv host laws _
                (started-Inv host laws (some shutdown_rx) tls incoming (earlier ++ later)) over).1,
            settled earlier later i
                (ap (λ u. u.phase) (sym (run-append host earlier later started)) ∙ over),
          )
        where
          s : Server host
          s = run host before started

          ends : Drains host s → (main_turn host first cx (run host after s)).phase ≡ Phase.returned
          ends (inl e) =
              shutdown_completes host Closing left rounds most_left most_rounds prompt laws
                (some shutdown_rx) tls incoming before after first cx e opened covers
          ends (inr e) = returned_stays host first cx (run host after s) (run-returned after s e)

          over : (run host (earlier ++ later) started).phase ≡ Phase.returned
          over =
              ap (λ ts. (run host ts started).phase) whole
              ∙ ap (λ u. u.phase)
                  (run-append host before (after ++ main first cx ∷ []) started
                    ∙ run-append host after (main first cx ∷ []) s)
              ∙ ends (signal_ends_the_loop host shutdown_rx n finishes tls incoming before enough)
