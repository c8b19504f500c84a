-- ===== src/Server/Completion.antt =====
-- The end of a graceful shutdown, when every task has had its polls (src/http.rs).
use hyper_server.Prelude.{ℕ, ◌≡◌, sym, ◌∙◌, Bool, true, Option, List, Result, All, arith}
use hyper_server.Stream.{Arrival}
use hyper_server.Watch.{IsWatch}
use hyper_server.Task.{Host}
use hyper_server.Task.Finishing.{Prompt}
use hyper_server.Server.Covers.{polls_of, IsOpen, Covers}
use hyper_server.Server.Shutdown.{graceful-run, started-Inv}
use hyper_server.Server.Stopped.{accepts_none_after_signal, last_turn}
use hyper_server.Server.Shutting.{Shutting, run-Covers, run-Shutting}
use hyper_server.Server.{Phase, First, Turn, is_some, start, main_turn, run}

module _ (host : Host) (Closing : host.Conn → Type 0) (left : host.Conn → ℕ)
    (rounds : host.Handshake → ℕ) (most_left most_rounds : ℕ) where
  open host use {IO, IE, Cx, Signal, watch}

  module _ (prompt : Prompt host Closing left rounds most_left most_rounds) where
    module _ (laws : IsWatch watch) where
      signalled :
          (signal : Option Signal) (tls : Bool) (incoming : List (Arrival (Result IE IO)))
          (turns : List (Turn host))
          → (run host turns (start host signal tls incoming)).phase ≡ Phase.draining
          → is_some host signal ≡ true
      unfolding start
      signalled signal tls incoming turns e =
          sym (graceful-run host turns (start host signal tls incoming))
          ∙ ground (arith, (started-Inv host laws signal tls incoming turns).open_ended)

      -- The watch channel being as documented, if connections that are asked to shut down close
      -- within a bound, and handshakes end within a bound: an execution that goes on after the
      -- signal, in which each task has as many polls as it may need, with the branches of the
      -- connection and of the signal in their rounds, and in whatever order, ends at the next turn
      -- of the main future with its return.
      pub shutdown_completes :
          (signal : Option Signal) (tls : Bool) (incoming : List (Arrival (Result IE IO)))
          (before after : List (Turn host)) (first : First) (cx : Cx)
          → (run host before (start host signal tls incoming)).phase ≡ Phase.draining
          → All IsOpen after
          → Covers host Closing left rounds most_left most_rounds
              (λ i. polls_of i after)
              (run host before (start host signal tls incoming)).tasks
          → (main_turn host first cx
              (run host after (run host before (start host signal tls incoming)))).phase
            ≡ Phase.returned
      shutdown_completes signal tls incoming before after first cx e opened covers =
          let (h, z) =
            run-Covers host Closing left rounds most_left most_rounds prompt laws after
              (run host before (start host signal tls incoming)) shutting opened covers in
          last_turn host laws first cx _ h.inv
            (accepts_none_after_signal host signal tls incoming before after e).0 z
        where
          shutting :
              Shutting host Closing left rounds most_left most_rounds prompt laws
                (run host before (start host signal tls incoming))
          shutting =
              run-Shutting host Closing left rounds most_left most_rounds prompt laws signal tls
                incoming before (signalled signal tls incoming before e) (ground arith)
