-- ===== src/Server/Shutdown.antt =====
-- The graceful shutdown of `serve_http_with_shutdown` over whole executions (src/http.rs).
use mathlib.Core.Path.{subst}
use hyper_server.Prelude.{
  ◌≡◌, refl, sym, ◌∙◌, ◌↔◌, Bool, true, false, Option, none, List, [], ◌∷◌, Result, arith,
}
use hyper_server.Stream.{Arrival}
use hyper_server.Watch.{IsWatch}
use hyper_server.Task.{Host}
use hyper_server.Server.Invariant.{total_live, follows_signal, Inv, start-Inv}
use hyper_server.Server.Tasks.{task_turn-Inv}
use hyper_server.Server.Turns.{main_turn-Inv}
use hyper_server.Server.Frame.{graceful-main_turn, is_dropped, is_dropped-main_turn}
use hyper_server.Server.{
  Phase, First, Server, Turn, is_some, main, task, start, main_turn, main_in, drain_round,
  task_turn, turn, run,
}

module _ (host : Host) where
  open host use {IO, IE, Cx, Signal, watch}

  pub graceful-run :
      (ts : List (Turn host)) (s : Server host) → (run host ts s).graceful ≡ s.graceful
  unfolding run turn task_turn
  graceful-run [] s = refl
  graceful-run (main first cx ∷ ts) s =
      graceful-run ts (main_turn host first cx s) ∙ graceful-main_turn host first cx s
  graceful-run (task i draws cx ∷ ts) s = graceful-run ts (task_turn host i draws cx s)

  is_dropped-run :
      (ts : List (Turn host)) (s : Server host)
      → is_dropped (run host ts s).phase ≡ is_dropped s.phase
  unfolding run turn task_turn
  is_dropped-run [] s = refl
  is_dropped-run (main first cx ∷ ts) s =
      is_dropped-run ts (main_turn host first cx s) ∙ is_dropped-main_turn host first cx s
  is_dropped-run (task i draws cx ∷ ts) s = is_dropped-run ts (task_turn host i draws cx s)

  module _ (laws : IsWatch watch) where
    pub run-Inv : (ts : List (Turn host)) (s : Server host) → Inv host s → Inv host (run host ts s)
    unfolding run turn
    run-Inv [] s v = v
    run-Inv (main first cx ∷ ts) s v = run-Inv ts _ (main_turn-Inv host laws first cx s v)
    run-Inv (task i draws cx ∷ ts) s v = run-Inv ts _ (task_turn-Inv host laws i draws cx s v)

    pub started-Inv :
        (signal : Option Signal) (tls : Bool) (incoming : List (Arrival (Result IE IO)))
        (turns : List (Turn host))
        → Inv host (run host turns (start host signal tls incoming))
    started-Inv signal tls incoming turns =
        run-Inv turns (start host signal tls incoming) (start-Inv host laws signal tls incoming)

    pub returned-Inv :
        (s : Server host)
        → Inv host s
        → s.phase ≡ Phase.returned
        → (s.graceful ≡ true) × (total_live s.tasks ≡ 0)
    returned-Inv s v e = (g, ground (arith, g, v.emptied e))
      where
        g : s.graceful ≡ true
        g = ground (arith, v.open_ended)

    pub draining-Inv :
        (s : Server host)
        → Inv host s
        → s.phase ≡ Phase.draining
        → watch.receiver_count s.channel ≡ total_live s.tasks
    draining-Inv s v e = ground (arith, g, v.count)
      where
        g : s.graceful ≡ true
        g = ground (arith, v.open_ended)

    pub main_turn-draining :
        (first : First) (cx : Cx) (s : Server host)
        → s.phase ≡ Phase.draining
        → ((main_turn host first cx s).phase ≡ Phase.returned)
          ↔ (watch.receiver_count s.channel ≡ 0)
    unfolding main_turn main_in drain_round
    main_turn-draining first cx s e = (
      λ r. ground (arith, (laws.closed_iff s.channel).0),
      λ n. ground (arith, (laws.closed_iff s.channel).1 n),
    )

    -- The watch channel being as documented: when the main future returns in an execution from the
    -- start, it was given a signal, and no task that it has spawned is still live: no connection is
    -- cut off.
    pub shutdown_cuts_no_connection :
        (signal : Option Signal) (tls : Bool) (incoming : List (Arrival (Result IE IO)))
        (turns : List (Turn host))
        → (run host turns (start host signal tls incoming)).phase ≡ Phase.returned
        → (is_some host signal ≡ true)
          × (total_live (run host turns (start host signal tls incoming)).tasks ≡ 0)
    unfolding start
    shutdown_cuts_no_connection signal tls incoming turns e =
        let (g, l) = returned-Inv _ (started-Inv signal tls incoming turns) e in
        (sym (graceful-run turns (start host signal tls incoming)) ∙ g, l)

    -- The watch channel being as documented: without a signal no execution leaves the accept loop,
    -- whatever the incoming stream does: not when it ends, and not on a fatal error.
    pub no_signal_never_returns :
        (tls : Bool) (incoming : List (Arrival (Result IE IO))) (turns : List (Turn host))
        → (run host turns (start host none tls incoming)).phase ≡ Phase.accepting
    unfolding start
    no_signal_never_returns tls incoming turns =
        accepting_of _ (is_dropped-run turns (start host none tls incoming)) (
          (started-Inv none tls incoming turns).open_ended
            (graceful-run turns (start host none tls incoming)))
      where
        accepting_of :
            (p : Phase) → is_dropped p ≡ false → follows_signal p ≡ false → p ≡ Phase.accepting
        accepting_of Phase.accepting d f = refl
        accepting_of Phase.dropped d f = cc
        accepting_of Phase.draining d f = cc
        accepting_of Phase.returned d f = cc
        accepting_of Phase.panicked d f = cc

    -- The watch channel being as documented: while the main future waits in
    -- `signal_tx.closed().await`, the receivers are those of the live tasks, and its next turn
    -- returns exactly when there is none.
    pub drains_to_the_last_connection :
        (signal : Option Signal) (tls : Bool) (incoming : List (Arrival (Result IE IO)))
        (turns : List (Turn host)) (first : First) (cx : Cx)
        → (run host turns (start host signal tls incoming)).phase ≡ Phase.draining
        → (watch.receiver_count (run host turns (start host signal tls incoming)).channel
            ≡ total_live (run host turns (start host signal tls incoming)).tasks)
          × (((main_turn host first cx (run host turns (start host signal tls incoming))).phase
                ≡ Phase.returned)
              ↔ (total_live (run host turns (start host signal tls incoming)).tasks ≡ 0))
    drains_to_the_last_connection signal tls incoming turns first cx e = (held, returns)
      where
        held :
            watch.receiver_count (run host turns (start host signal tls incoming)).channel
            ≡ total_live (run host turns (start host signal tls incoming)).tasks
        held = draining-Inv _ (started-Inv signal tls incoming turns) e

        returns :
            ((main_turn host first cx (run host turns (start host signal tls incoming))).phase
              ≡ Phase.returned)
            ↔ (total_live (run host turns (start host signal tls incoming)).tasks ≡ 0)
        returns =
            subst
              (λ n.
                ((main_turn host first cx (run host turns (start host signal tls incoming))).phase
                  ≡ Phase.returned)
                ↔ (n ≡ 0))
              held (main_turn-draining first cx _ e)
