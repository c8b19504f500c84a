-- ===== src/Lifecycle/Completes.antt =====
-- The way of the examples from the interrupt to their end (examples/tower_service_fn.rs,
-- examples/tonic.rs).
use mathlib.Core.Path.{subst}
use hyper_server.Prelude.{
  ℕ, ◌≡◌, sym, ap, ◌∙◌, ◌⊎◌, inl, inr, true, some, Result, ok, List, [], ◌∷◌, All,
}
use hyper_server.Stream.{Arrival}
use hyper_server.Watch.{IsWatch}
use hyper_server.Task.{Host}
use hyper_server.Task.Finishing.{Prompt}
use hyper_server.Server.Covers.{polls_of, IsOpen, Covers}
use hyper_server.Server.Completion.{shutdown_completes}
use hyper_server.Server.{Phase, First, Turn, start, run, main_turn}
use hyper_server.Lifecycle.Ends.{joining-sent, steps-server}
use hyper_server.Lifecycle.Joining.{
  turns_after, Joins, IsDone, steps-Joins, steps-IsDone, last_polls,
}
use hyper_server.Lifecycle.{
  joining, ended, Outside, Example, launch, Step, main_poll, server_poll, steps,
}

module _ (host : Host) (outside : Outside host) where
  open host use {IO, IE, Signal}
  open outside use {Interrupt, Cx, context}

  module _ (Closing : host.Conn → Type 0) (left : host.Conn → ℕ) (rounds : host.Handshake → ℕ)
      (most_left most_rounds : ℕ) (prompt : Prompt host Closing left rounds most_left most_rounds)
      (laws : IsWatch host.watch) where
    -- The watch channel being as documented, if connections that are asked to shut down close
    -- within a bound, and handshakes end within a bound: after the interrupt, once the server
    -- drains, steps that give each connection as many polls as it may need, with the branches of
    -- the connection and of the signal in their rounds, and then a poll of the server and one of
    -- `main`, end the program with `Ok(())`.
    pub main_completes_after_interrupt :
        (interrupt : Interrupt) (shutdown_rx : Signal) (incoming : List (Arrival (Result IE IO)))
        (before after : List (Step host outside)) (first : First) (server_cx main_cx : Cx)
        → (steps host outside before (launch host outside interrupt shutdown_rx incoming)).ending
          ≡ joining
        → (steps host outside before
            (launch host outside interrupt shutdown_rx incoming)).server.phase
          ≡ Phase.draining
        → All IsOpen (turns_after host outside after)
        → Covers host Closing left rounds most_left most_rounds
            (λ i. polls_of i (turns_after host outside after))
            (steps host outside before
              (launch host outside interrupt shutdown_rx incoming)).server.tasks
        → (steps host outside (server_poll first server_cx ∷ main_poll main_cx ∷ []) (
            steps host outside after (
              steps host outside before
                (launch host outside interrupt shutdown_rx incoming)))).ending
          ≡ ended (ok tt)
    unfolding launch
    main_completes_after_interrupt interrupt shutdown_rx incoming before after first server_cx
          main_cx e d opened covers =
        let (ts, f) =
          steps-server host outside before (launch host outside interrupt shutdown_rx incoming) in
        go ts f (steps-Joins host outside after p joins)
      where
        p : Example host outside
        p = steps host outside before (launch host outside interrupt shutdown_rx incoming)

        joins : Joins host outside p
        joins = (e, joining-sent host outside interrupt shutdown_rx incoming before e, inl d)

        returns :
            (ts : List (Turn host)) (cx : host.Cx)
            → p.server ≡ run host ts (start host (some shutdown_rx) true incoming)
            → (main_turn host first cx (run host (turns_after host outside after) p.server)).phase
              ≡ Phase.returned
        returns ts cx f =
            subst
              (λ s.
                (main_turn host first cx (run host (turns_after host outside after) s)).phase
                ≡ Phase.returned)
              (sym f)
              (shutdown_completes host Closing left rounds most_left most_rounds prompt laws
                (some shutdown_rx) true incoming ts (turns_after host outside after) first cx
                (ap (λ s. s.phase) (sym f) ∙ d) opened
                (subst
                  (λ s.
                    Covers host Closing left rounds most_left most_rounds
                      (λ i. polls_of i (turns_after host outside after)) s.tasks)
                  f covers))

        go :
            (ts : List (Turn host))
            → p.server ≡ run host ts (start host (some shutdown_rx) true incoming)
            → IsDone host outside (steps host outside after p)
              ⊎ (Joins host outside (steps host outside after p)
                  × ((steps host outside after p).server
                      ≡ run host (turns_after host outside after) p.server))
            → IsDone host outside (
                steps host outside
                  (server_poll first server_cx ∷ main_poll main_cx ∷ [])
                  (steps host outside after p))
        go ts f (inl done) = steps-IsDone host outside _ _ done
        go ts f (inr (j, q)) =
            last_polls host outside first server_cx main_cx (steps host outside after p) j (
              subst
                (λ s.
                  (main_turn host first (context (steps host outside after p).sent server_cx)
                    s).phase
                  ≡ Phase.returned)
                (sym q) (returns ts _ f))
