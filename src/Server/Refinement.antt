-- ===== src/Server/Refinement.antt =====
-- The executions of `serve_http_with_shutdown` and its tasks as paths of the diagram (src/http.rs).
use mathlib.Core.Path.{subst}
use hyper_server.Prelude.{◌≡◌, refl, ◌∙◌, Bool, Option, List, Result}
use hyper_server.Stream.{Arrival}
use hyper_server.Watch.{IsWatch}
use hyper_server.Task.{Host}
use hyper_server.Server.Invariant.{Inv, drop_main-Inv}
use hyper_server.Server.Diagram.{Actor, by_main, by_task, by_caller, Step}
use hyper_server.Server.Frame.{graceful-drop_main}
use hyper_server.Server.Shutdown.{run-Inv, started-Inv, graceful-run}
use hyper_server.Server.Follows.{
  view, Follows, main_turn-Follows, task_turn-Follows, drop_main-Follows,
}
use hyper_server.Server.{
  Phase, Server, Turn, is_some, main, task, start, main_turn, drop_main, task_turn, turn, run,
}

-- Whose turn it is.
abbrev pub actor_of : {host : Host} → Turn host → Actor
actor_of (main first cx) = by_main
actor_of (task i draws cx) = by_task

module _ (host : Host) where
  open host use {IO, IE, Signal, watch}

  module _ (laws : IsWatch watch) where
    module _ (signal : Option Signal) (tls : Bool) (incoming : List (Arrival (Result IE IO)))
        (before after : List (Turn host)) where
      abbrev reached : Server host
      reached = run host before (start host signal tls incoming)

      reached-graceful : reached.graceful ≡ is_some host signal
      unfolding start
      reached-graceful = graceful-run host before (start host signal tls incoming)

      abbrev dropped_on : Server host
      dropped_on = run host after (drop_main host reached)

      stepped :
          {g : Bool} {a : Actor} (s s' : Server host)
          → s.graceful ≡ g
          → Follows host a s s'
          → Step g a (view host s) (view host s')
      stepped {a = a} s s' e h = subst (λ b. Step b a (view host s) (view host s')) e h

      turn-Step :
          (t : Turn host) (s : Server host)
          → Inv host s
          → s.graceful ≡ is_some host signal
          → Step (is_some host signal) (actor_of t) (view host s) (view host (turn host t s))
      unfolding turn
      turn-Step (main first cx) s i e =
          stepped {a = by_main} s (main_turn host first cx s) e
            (main_turn-Follows host laws first cx s i)
      turn-Step (task j draws cx) s i e =
          stepped {a = by_task} s (task_turn host j draws cx s) e
            (task_turn-Follows host j draws cx s)

      -- The watch channel being as documented: a server starts with no connection, in its loop, and from
      -- there on each turn of an execution, with the main future dropped by its caller at any point of
      -- it or not, and the drop itself, is one move of the diagram or none, and one that is for the main
      -- future, a task or the caller to make.
      pub executions_follow_the_diagram :
          (t : Turn host)
          → (view host (start host signal tls incoming) ≡ (Phase.accepting, 0))
            × Step
                (is_some host signal)
                (actor_of t)
                (view host (run host before (start host signal tls incoming)))
                (view host (turn host t (run host before (start host signal tls incoming))))
            × Step
                (is_some host signal)
                by_caller
                (view host (run host before (start host signal tls incoming)))
                (view host (drop_main host (run host before (start host signal tls incoming))))
            × Step
                (is_some host signal)
                (actor_of t)
                (view host (
                  run host after
                    (drop_main host (run host before (start host signal tls incoming)))))
                (view host (
                  turn host t (
                    run host after
                      (drop_main host (run host before (start host signal tls incoming))))))
      unfolding start
      executions_follow_the_diagram t = (
        refl,
        turn-Step t reached (started-Inv host laws signal tls incoming before) reached-graceful,
        stepped reached (drop_main host reached) reached-graceful (drop_main-Follows host reached),
        turn-Step t dropped_on
            (run-Inv host laws after (drop_main host reached)
              (drop_main-Inv host laws reached (started-Inv host laws signal tls incoming before)))
            (graceful-run host after (drop_main host reached)
              ∙ graceful-drop_main host reached
              ∙ reached-graceful),
      )
