-- ===== src/Server/Idle.antt =====
-- `test_shutdown_rejects_new_connections` of src/http.rs: a server that is shut down before anybody
-- connects.
use hyper_server.Prelude.{
  ℕ, zero, suc, ◌+◌, ◌<◌, ◌≡◌, refl, ◌∙◌, ap, Bool, true, false, some, List, [], ◌∷◌, ◌++◌, length,
  arith, Result, ok, err,
}
use hyper_server.Future.{Finishes}
use hyper_server.Stream.{items, nobody}
use hyper_server.Tcp.Demux.{accepted}
use hyper_server.Watch.{IsWatch}
use hyper_server.Task.{Host, Task}
use hyper_server.Server.Invariant.{total_live}
use hyper_server.Server.Frame.{run-append}
use hyper_server.Server.Shutdown.{started-Inv}
use hyper_server.Server.Spawning.{one_task_for_each_connection}
use hyper_server.Server.Progress.{main_turns}
use hyper_server.Server.Stopped.{last_turn}
use hyper_server.Server.Signalled.{signal_ends_the_loop}
use hyper_server.Server.{Phase, First, Server, Turn, main, start, turn, run}

-- The listener is a local of the main future: it is open for as long as that future is not gone.
abbrev pub listens : Phase → Bool
listens Phase.accepting = true
listens Phase.draining = true
listens _ = false

abbrev pub is_err {ℓ κ} : {E : Type ℓ} {A : Type κ} → Result E A → Bool
is_err (ok a) = false
is_err (err e) = true

module _ (host : Host) where
  open host use {IO, IE, Cx, Signal, watch}

  -- `TcpStream::connect` to the server's address, by whether its listener is open.
  module _ {E TcpStream : Type 0} (connect : Bool → Result E TcpStream) where
    -- The `shutdown_tx` has sent, so that the signal fires. The turns are those within 50 ms, with so
    -- many polls of the listener; then a client tries to connect.
    attempt : Signal → ℕ → List (Turn host) → Result E TcpStream
    attempt shutdown_rx polls turns =
        connect
          (listens (run host turns (start host (some shutdown_rx) false (nobody polls))).phase)

    -- `assert!(result.is_err())`
    pub test_shutdown_rejects_new_connections : Signal → ℕ → List (Turn host) → Bool
    unfolding attempt
    test_shutdown_rejects_new_connections shutdown_rx polls turns =
        is_err (attempt shutdown_rx polls turns)

  items-nobody : {A : Type 0} (m : ℕ) → items {A = A} (nobody m) ≡ []
  items-nobody zero = refl
  items-nobody (suc m) = items-nobody m

  length-nobody : (A : Type 0) (m : ℕ) → length (nobody {A = A} m) ≡ m
  length-nobody A zero = refl
  length-nobody A (suc m) = ap suc (length-nobody A m)

  no_tasks : (ts : List (Task host)) (rest : ℕ) → length ts + rest ≡ 0 → total_live ts ≡ 0
  no_tasks [] rest h = refl
  no_tasks (t ∷ ts) rest h = absurd (omega (arith, h))

  module _ (laws : IsWatch watch) (shutdown_rx : Signal) (n m : ℕ)
      (finishes : Finishes host.signal n shutdown_rx tt) (before : List (Turn host))
      (enough : n + m < main_turns before) (first : First) (cx : Cx) where
    abbrev waiting : Server host
    waiting = run host before (start host (some shutdown_rx) false (nobody m))

    nothing_live : total_live waiting.tasks ≡ 0
    nothing_live = no_tasks waiting.tasks _ (
        one_task_for_each_connection host (some shutdown_rx) false (nobody m) before
        ∙ ap (λ l. length (accepted host.into l)) (items-nobody m))

    over :
        (run host
          (before ++ main first cx ∷ [])
          (start host (some shutdown_rx) false (nobody m))).phase
        ≡ Phase.returned
    unfolding run turn
    over =
        ap (λ s. s.phase) (run-append host before (main first cx ∷ []) _)
        ∙ last_turn host laws first cx waiting
            (started-Inv host laws (some shutdown_rx) false (nobody m) before)
            (signal_ends_the_loop host shutdown_rx n finishes false (nobody m) before
              (rw (length-nobody _ m) enough))
            nothing_live

    -- The watch channel being as documented: if the signal fires after so many polls and nobody connects,
    -- and the main future has had a turn more than those and the polls of the listener, its next turn
    -- returns `Ok(())`, in whatever order its branches are polled. With that the listener is closed, and
    -- if the system refuses connections to an address without a listener, the test passes.
    pub idle_server_refuses_connections :
        {E TcpStream : Type 0} (connect : Bool → Result E TcpStream) (e : E)
        → connect false ≡ err e
        → ((run host
              (before ++ main first cx ∷ [])
              (start host (some shutdown_rx) false (nobody m))).phase
            ≡ Phase.returned)
          × (test_shutdown_rejects_new_connections connect shutdown_rx m
                (before ++ main first cx ∷ [])
              ≡ true)
    unfolding test_shutdown_rejects_new_connections attempt
    idle_server_refuses_connections connect e refused =
        (over, ap (λ p. is_err (connect (listens p))) over ∙ ap is_err refused)
