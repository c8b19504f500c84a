-- ===== src/Server/Signalled.antt =====
-- The end of the accept loop of `serve_http_with_shutdown` once its signal fires (src/http.rs).
use hyper_server.Prelude.{
  ℕ, suc, ◌+◌, ◌<◌, ◌≡◌, refl, inl, inr, Bool, some, List, [], ◌∷◌, Result, length, arith,
}
use hyper_server.Future.{Finishes}
use hyper_server.Stream.{Arrival}
use hyper_server.Task.{Host}
use hyper_server.Server.Progress.{main_turns}
use hyper_server.Server.Stopped.{Drains, run-Left}
use hyper_server.Server.{
  Phase, First, Server, Turn, main, task, start, main_in, main_turn, task_turn, turn, run,
}
use hyper_server.Server.Countdown.{Armed, Nearer, accept_round-Nearer}

module _ (host : Host) where
  open host use {IO, IE, Cx, Signal}

  main_turn-Nearer :
      (n k most : ℕ) (first : First) (cx : Cx) (s : Server host)
      → n + k < suc most
      → Armed host n k s
      → Nearer host most (main_turn host first cx s)
  unfolding main_turn main_in
  main_turn-Nearer n k most first cx s h a = go s.phase a.phase
    where
      go : (p : Phase) → p ≡ Phase.accepting → Nearer host most (main_in host p first s cx)
      go Phase.accepting e = accept_round-Nearer host n k most first s cx h a
      go Phase.draining e = cc
      go Phase.returned e = cc
      go Phase.panicked e = cc
      go Phase.dropped e = cc

  run-Drains :
      (ts : List (Turn host)) (n k : ℕ) (s : Server host)
      → n + k < main_turns ts
      → Armed host n k s
      → Drains host (run host ts s)
  unfolding run turn task_turn
  run-Drains [] n k s h a = absurd (omega (arith, h))
  run-Drains (main first cx ∷ ts) n k s h a =
      go (main_turn-Nearer n k (main_turns ts) first cx s (omega (arith, h)) a)
        (λ n' k'. run-Drains ts n' k' (main_turn host first cx s))
    where
      go :
          Nearer host (main_turns ts) (main_turn host first cx s)
          → ((n' k' : ℕ)
              → n' + k' < main_turns ts
              → Armed host n' k' (main_turn host first cx s)
              → Drains host (run host ts (main_turn host first cx s)))
          → Drains host (run host ts (main_turn host first cx s))
      go (inl e) next = (run-Left host ts (main_turn host first cx s) (ground (arith, e)) (inl e)).0
      go (inr (n', k', h', a')) next = next n' k' h' a'
  run-Drains (task i draws cx ∷ ts) n k s h a =
      run-Drains ts n k (task_turn host i draws cx s) h (record {
        phase = a.phase;
        graceful = a.graceful;
        signal = a.signal;
        waiting = a.waiting;
        finishes = a.finishes;
        over = a.over;
        short = a.short;
      })

  -- If the signal fires after so many polls: after more turns of the main future than that and the
  -- incoming stream has arrivals, in whatever order the branches are polled and the tasks come between
  -- them, the main future has left its loop for the drain.
  pub signal_ends_the_loop :
      (signal : Signal) (n : ℕ)
      → Finishes host.signal n signal tt
      → (tls : Bool) (incoming : List (Arrival (Result IE IO))) (turns : List (Turn host))
      → n + length incoming < main_turns turns
      → Drains host (run host turns (start host (some signal) tls incoming))
  unfolding start
  signal_ends_the_loop signal n finishes tls incoming turns h =
      run-Drains turns n (length incoming) (start host (some signal) tls incoming) h (record {
        phase = refl;
        graceful = refl;
        signal = signal;
        waiting = refl;
        finishes = finishes;
        over = λ e. cc;
        short = omega arith;
      })
