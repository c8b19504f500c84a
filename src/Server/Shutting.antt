-- ===== src/Server/Shutting.antt =====
-- The tasks of a graceful server whose main future has left its loop, when every one of them has had
-- its polls (src/http.rs).
use mathlib.Core.Path.{subst}
use hyper_server.Prelude.{
  ℕ, ◌+◌, ◌≡◌, refl, sym, ◌∙◌, Bool, true, Option, List, [], ◌∷◌, Result, All,
}
use hyper_server.Stream.{Arrival}
use hyper_server.Watch.{IsWatch}
use hyper_server.Connection.{Branch}
use hyper_server.Task.{Host}
use hyper_server.Task.Finishing.{Heeds-Holder, Prompt}
use hyper_server.Server.Invariant.{total_live, Inv}
use hyper_server.Server.Tasks.{task_turn-Inv}
use hyper_server.Server.Turns.{main_turn-Inv}
use hyper_server.Server.Frame.{graceful-main_turn}
use hyper_server.Server.Holding.{task_turn-Holds, run-Holds}
use hyper_server.Server.Covers.{
  hits, polls_of, IsOpen, Heed, Covers, poll_at-Covers, Covers-total_live, poll_unfinished-need_of,
}
use hyper_server.Server.Shutdown.{graceful-run, started-Inv}
use hyper_server.Server.Stopped.{HasLeft, main_turn-HasLeft}
use hyper_server.Server.{
  Server, Turn, is_some, main, task, start, main_turn, poll_unfinished, task_turn, turn, run,
}

module _ (host : Host) (Closing : host.Conn → Type 0) (left : host.Conn → ℕ)
    (rounds : host.Handshake → ℕ) (most_left most_rounds : ℕ) where
  open host use {IO, IE, Cx, Signal, watch}

  module _ (prompt : Prompt host Closing left rounds most_left most_rounds) where
    module _ (laws : IsWatch watch) where
      -- The server after the signal: what the turns keep.
      pub record Shutting (s : Server host) : Type 0 where
        pub inv : Inv host s
        pub graceful : s.graceful ≡ true
        pub left_loop : HasLeft host s
        pub heed : All (Heed host Closing left rounds most_left most_rounds) s.tasks

      task_turn-Shutting :
          (j : ℕ) (draws : ℕ → List Branch) (cx : Cx) (s : Server host)
          → Shutting s
          → Shutting (task_turn host j draws cx s)
      unfolding task_turn
      task_turn-Shutting j draws cx s h = record {
        inv = task_turn-Inv host laws j draws cx s h.inv;
        graceful = h.graceful;
        left_loop = h.left_loop;
        heed =
            task_turn-Holds host _
              (Heeds-Holder host Closing left rounds most_left most_rounds prompt) j draws cx s
              h.graceful h.heed;
      }

      task_turn-Covers :
          (j : ℕ) (draws : ℕ → List Branch) (cx : Cx) (s : Server host)
          → Shutting s
          → IsOpen {host = host} (task j draws cx)
          → (c : ℕ → ℕ)
          → Covers host Closing left rounds most_left most_rounds (λ i. hits i j + c i) s.tasks
          → Covers host Closing left rounds most_left most_rounds c
              (task_turn host j draws cx s).tasks
      unfolding task_turn
      task_turn-Covers j draws cx s h opened c covers =
          poll_at-Covers host Closing left rounds most_left most_rounds
            (poll_unfinished host s draws cx)
            (poll_unfinished-need_of host Closing left rounds most_left most_rounds prompt s draws
              cx h.graceful (h.inv.changed ∙ h.left_loop) opened)
            j s.tasks c h.heed covers

      pub run-Covers :
          (ts : List (Turn host)) (s : Server host)
          → Shutting s
          → All IsOpen ts
          → Covers host Closing left rounds most_left most_rounds (λ i. polls_of i ts) s.tasks
          → Shutting (run host ts s) × (total_live (run host ts s).tasks ≡ 0)
      unfolding run turn
      run-Covers [] s h opened c = (
        h,
        Covers-total_live host Closing left rounds most_left most_rounds (λ i. 0) s.tasks
            (λ i. refl) c,
      )
      run-Covers (main first cx ∷ ts) s h opened c =
          let (loop, same) = main_turn-HasLeft host first cx s h.left_loop in
          run-Covers ts (main_turn host first cx s)
            (record {
              inv = main_turn-Inv host laws first cx s h.inv;
              graceful = graceful-main_turn host first cx s ∙ h.graceful;
              left_loop = loop;
              heed =
                  subst (All (Heed host Closing left rounds most_left most_rounds)) (sym same)
                    h.heed;
            })
            opened.1
            (subst (Covers host Closing left rounds most_left most_rounds (λ i. polls_of i ts))
              (sym same) c)
      run-Covers (task j draws cx ∷ ts) s h opened c =
          run-Covers ts (task_turn host j draws cx s) (task_turn-Shutting j draws cx s h) opened.1
            (task_turn-Covers j draws cx s h opened.0 (λ i. polls_of i ts) c)

      -- A graceful server whose main future has left its loop, in any execution.
      pub run-Shutting :
          (signal : Option Signal) (tls : Bool) (incoming : List (Arrival (Result IE IO)))
          (turns : List (Turn host))
          → is_some host signal ≡ true
          → HasLeft host (run host turns (start host signal tls incoming))
          → Shutting (run host turns (start host signal tls incoming))
      unfolding start
      run-Shutting signal tls incoming turns g l = record {
        inv = started-Inv host laws signal tls incoming turns;
        graceful = graceful-run host turns (start host signal tls incoming) ∙ g;
        left_loop = l;
        heed =
            run-Holds host _ (Heeds-Holder host Closing left rounds most_left most_rounds prompt)
              turns (start host signal tls incoming) g tt;
      }
