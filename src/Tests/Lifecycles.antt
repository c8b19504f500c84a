-- ===== src/Tests/Lifecycles.antt =====
-- An example program from its launch to its end (examples/tower_service_fn.rs).
use hyper_server.Prelude.{
  ℕ, ◌≡◌, refl, inl, inr, Bool, true, false, Option, none, some, ok, List, [], ◌∷◌, All, arith,
}
use hyper_server.Future.{Future, Polled, waits, completes}
use hyper_server.Fuse.{poll_fuse}
use hyper_server.Errors.Accept.{handle_accept_error}
use hyper_server.Tcp.{serve_tcp_incoming}
use hyper_server.Task.{Host, poll_task, poll_changed}
use hyper_server.Connection.{
  poll_serving, run_loop, select, poll_branch, poll_sleep, sig_handler, age_handler, start_serving,
}
use hyper_server.Server.Invariant.{total_live}
use hyper_server.Server.Covers.{Covers, IsOpen, polls_of}
use hyper_server.Server.{Phase, First, task, start, main_turn, task_turn}
use hyper_server.Lifecycle.{
  interrupted_by, joining, ended, Outside, Example, launch, Step, main_poll, server_poll, task_poll,
  step, steps,
}
use hyper_server.Lifecycle.Heard.{main_polls, interrupt_after, HasCome}
use hyper_server.Lifecycle.Ends.{main_ends_after_its_connections}
use hyper_server.Lifecycle.Serves.{server_accepts_until_interrupt}
use hyper_server.Lifecycle.Joining.{turns_after}
use hyper_server.Lifecycle.Completes.{main_completes_after_interrupt}
use hyper_server.Tests.Fixtures.{delay, counting_watch-IsWatch, in_order}
use hyper_server.Tests.Servers.{two_connections}
use hyper_server.Tests.Completions.{
  brief_host_of, AskedBriefly, rounds_left, handshake_rounds, brief_host-Prompt,
}

-- The receiver of a `oneshot` channel: a poll reads whether the sender has sent.
abbrev poll_receiver : Option ℕ → Bool → Polled (Option ℕ) (Unit {0})
poll_receiver f true = completes tt none
poll_receiver f false = waits f

abbrev oneshot_receiver : Future Bool (Option ℕ) (Unit {0})
oneshot_receiver = record { poll = poll_receiver }

abbrev example_host : Host
example_host = brief_host_of Bool oneshot_receiver

abbrev outside : Outside example_host
outside = record {
  Interrupt = Option ℕ;
  E = ℕ;
  Cx = Unit {0};
  interrupt = delay (ok tt);
  context = λ sent cx. sent;
}

abbrev launched : Example example_host outside
launched = launch example_host outside (some 1) (some 1) two_connections

abbrev until_interrupt : List (Step example_host outside)
until_interrupt =
    main_poll tt
    ∷ server_poll First.incoming_first tt
    ∷ server_poll First.sig_first tt
    ∷ server_poll First.incoming_first tt
    ∷ server_poll First.sig_first tt
    ∷ []

abbrev interrupted : List (Step example_host outside)
interrupted =
    main_poll tt
    ∷ server_poll First.incoming_first tt
    ∷ server_poll First.sig_first tt
    ∷ server_poll First.incoming_first tt
    ∷ server_poll First.sig_first tt
    ∷ main_poll tt
    ∷ server_poll First.sig_first tt
    ∷ []

not_interrupted : (steps example_host outside until_interrupt launched).sent ≡ false
unfolding steps step launch start main_turn serve_tcp_incoming handle_accept_error poll_fuse
not_interrupted = refl

server_accepts_until_interrupt_example :
    ((steps example_host outside until_interrupt launched).server.phase ≡ Phase.accepting)
    × (i : Option ℕ) × ((steps example_host outside until_interrupt launched).ending
        ≡ interrupted_by i)
server_accepts_until_interrupt_example =
    server_accepts_until_interrupt example_host outside (λ f cx. (f, refl)) (some 1) (some 1)
      two_connections until_interrupt not_interrupted

abbrev six_tasks : ℕ → List (Step example_host outside) → List (Step example_host outside)
six_tasks i rest =
    task_poll i in_order tt
    ∷ task_poll i in_order tt
    ∷ task_poll i in_order tt
    ∷ task_poll i in_order tt
    ∷ task_poll i in_order tt
    ∷ task_poll i in_order tt
    ∷ rest

abbrev enough_steps : List (Step example_host outside)
enough_steps = six_tasks 0 (six_tasks 1 (six_tasks 2 []))

abbrev draining : Example example_host outside
draining = steps example_host outside interrupted launched

draining-joining : draining.ending ≡ joining
unfolding steps step launch start main_turn serve_tcp_incoming handle_accept_error poll_fuse
draining-joining = refl

draining-draining : draining.server.phase ≡ Phase.draining
unfolding steps step launch start main_turn serve_tcp_incoming handle_accept_error poll_fuse
draining-draining = refl

draining-Covers :
    Covers example_host AskedBriefly rounds_left handshake_rounds 1 1
      (λ i. polls_of i (turns_after example_host outside enough_steps))
      draining.server.tasks
unfolding steps step launch start main_turn serve_tcp_incoming handle_accept_error poll_fuse
draining-Covers = (omega arith, (omega arith, (omega arith, tt)))

task-IsOpen : (i : ℕ) → IsOpen {host = example_host} (task i in_order true)
task-IsOpen i = ((λ n. inr (inr (inl refl))), (λ n. inl refl))

six_tasks-IsOpen :
    (i : ℕ) (rest : List (Step example_host outside))
    → All (IsOpen {host = example_host}) (turns_after example_host outside rest)
    → All (IsOpen {host = example_host}) (turns_after example_host outside (six_tasks i rest))
six_tasks-IsOpen i rest h = (
  task-IsOpen i,
  (task-IsOpen i, (task-IsOpen i, (task-IsOpen i, (task-IsOpen i, (task-IsOpen i, h))))),
)

main_completes_after_interrupt_example :
    (steps example_host outside
      (server_poll First.sig_first tt ∷ main_poll tt ∷ [])
      (steps example_host outside enough_steps draining)).ending
    ≡ ended (ok tt)
main_completes_after_interrupt_example =
    main_completes_after_interrupt example_host outside AskedBriefly rounds_left handshake_rounds 1
      1 (brief_host-Prompt Bool oneshot_receiver) counting_watch-IsWatch (some 1) (some 1)
      two_connections interrupted enough_steps First.sig_first tt tt draining-joining
      draining-draining
      (six_tasks-IsOpen 0 (six_tasks 1 (six_tasks 2 []))
        (six_tasks-IsOpen 1 (six_tasks 2 []) (six_tasks-IsOpen 2 [] tt)))
      draining-Covers

abbrev whole_life : List (Step example_host outside)
whole_life =
    main_poll tt
    ∷ server_poll First.incoming_first tt
    ∷ server_poll First.incoming_first tt
    ∷ server_poll First.incoming_first tt
    ∷ server_poll First.incoming_first tt
    ∷ main_poll tt
    ∷ server_poll First.sig_first tt
    ∷ main_poll tt
    ∷ six_tasks 0 (six_tasks 1 (six_tasks 2 (server_poll First.sig_first tt ∷ main_poll tt ∷ [])))

life_ends : (steps example_host outside whole_life launched).ending ≡ ended (ok tt)
unfolding steps step launch start main_turn task_turn serve_tcp_incoming handle_accept_error
    poll_fuse poll_task poll_serving run_loop select poll_branch poll_sleep sig_handler poll_changed
    start_serving age_handler
life_ends = refl

main_ends_after_its_connections_example :
    HasCome example_host outside
      (interrupt_after example_host outside (main_polls example_host outside whole_life) (some 1))
    × ((steps example_host outside whole_life launched).sent ≡ true)
    × ((steps example_host outside whole_life launched).server.phase ≡ Phase.returned)
    × (total_live (steps example_host outside whole_life launched).server.tasks ≡ 0)
main_ends_after_its_connections_example =
    main_ends_after_its_connections example_host outside counting_watch-IsWatch (some 1) (some 1)
      two_connections whole_life life_ends
