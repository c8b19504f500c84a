-- ===== src/Tests/Completions.antt =====
-- A graceful shutdown with hyper and rustls that keep their bounds (src/http.rs).
use hyper_server.Prelude.{
  ℕ, zero, suc, ◌≤◌, ◌<◌, ◌≡◌, refl, inl, inr, true, Option, none, some, List, [], ◌∷◌, inl, inr,
  arith, All,
}
use hyper_server.Future.{Future}
use hyper_server.Fuse.{poll_fuse}
use hyper_server.Errors.Accept.{handle_accept_error}
use hyper_server.Tcp.{serve_tcp_incoming}
use hyper_server.Connection.Select.{Round}
use hyper_server.Task.{Host, TaskCx, parts}
use hyper_server.Task.Finishing.{Prompt}
use hyper_server.Connection.Closing.{Closes}
use hyper_server.Server.Completion.{shutdown_completes}
use hyper_server.Server.Covers.{Covers, IsOpen, polls_of}
use hyper_server.Server.{Phase, First, Server, Turn, main, task, start, main_turn, turn, run}
use hyper_server.Tests.Fixtures.{
  MockConn, open_conn, closed_conn, host_of, delay, counting_watch-IsWatch, in_order,
}
use hyper_server.Tests.Servers.{two_connections}

-- A graceful shutdown leaves at most one more round.
abbrev pub ask_briefly : MockConn → MockConn
ask_briefly (open_conn requests zero) = open_conn (suc requests) zero
ask_briefly (open_conn requests (suc n)) = open_conn (suc requests) 1
ask_briefly (closed_conn requests) = closed_conn (suc requests)

abbrev pub brief_host_of : (Cx : Type 0) → Future Cx (Option ℕ) (Unit {0}) → Host
brief_host_of Cx signal = record (host_of Cx signal) { graceful_shutdown = ask_briefly }

abbrev pub brief_host : Host
brief_host = brief_host_of (Unit {0}) (delay tt)

abbrev pub AskedBriefly : MockConn → Type 0
AskedBriefly (open_conn zero rounds) = ⊥
AskedBriefly (open_conn (suc k) zero) = Unit
AskedBriefly (open_conn (suc k) (suc zero)) = Unit
AskedBriefly (open_conn (suc k) (suc (suc n))) = ⊥
AskedBriefly (closed_conn requests) = Unit

abbrev pub rounds_left : MockConn → ℕ
rounds_left (open_conn requests rounds) = rounds
rounds_left (closed_conn requests) = 0

abbrev pub handshake_rounds : Option ℕ → ℕ
handshake_rounds none = 0
handshake_rounds (some n) = n

pub brief_host-Closes :
    (Cx : Type 0) (signal : Future Cx (Option ℕ) (Unit {0}))
    → Closes (parts (brief_host_of Cx signal)) AskedBriefly rounds_left
brief_host-Closes Cx signal = record { on_poll = polled; on_shutdown = asked; on_again = again }
  where
    polled :
        (c : MockConn) (cx : TaskCx (brief_host_of Cx signal))
        → AskedBriefly c
        → Round Unit
            (λ c'. AskedBriefly c' × (rounds_left c' < rounds_left c))
            (λ _ _. Unit {0})
            ((parts (brief_host_of Cx signal)).connection.poll c cx)
    polled (open_conn zero zero) cx h = tt
    polled (open_conn zero (suc n)) cx h = absurd h
    polled (open_conn (suc k) zero) cx h = tt
    polled (open_conn (suc k) (suc zero)) cx h = (tt, omega arith)
    polled (open_conn (suc k) (suc (suc n))) cx h = absurd h
    polled (closed_conn requests) cx h = tt

    asked : (c : MockConn) → AskedBriefly (ask_briefly c)
    asked (open_conn requests zero) = tt
    asked (open_conn requests (suc n)) = tt
    asked (closed_conn requests) = tt

    again : (c : MockConn) → AskedBriefly c → rounds_left (ask_briefly c) ≤ rounds_left c
    again (open_conn requests zero) h = omega arith
    again (open_conn requests (suc n)) h = omega arith
    again (closed_conn requests) h = omega arith

pub brief_host-Prompt :
    (Cx : Type 0) (signal : Future Cx (Option ℕ) (Unit {0}))
    → Prompt (brief_host_of Cx signal) AskedBriefly rounds_left handshake_rounds 1 1
brief_host-Prompt Cx signal = record {
  closes = brief_host-Closes Cx signal;
  bounded = bounded;
  handshakes = handshakes;
  starts = λ io. omega arith;
}
  where
    bounded : (c : MockConn) → AskedBriefly c → rounds_left c ≤ 1
    bounded (open_conn zero rounds) h = absurd h
    bounded (open_conn (suc k) zero) h = omega arith
    bounded (open_conn (suc k) (suc zero)) h = omega arith
    bounded (open_conn (suc k) (suc (suc n))) h = absurd h
    bounded (closed_conn requests) h = omega arith

    handshakes :
        (h : Option ℕ) (cx : Cx)
        → Round Unit
            (λ h'. handshake_rounds h' < handshake_rounds h)
            (λ _ _. Unit {0})
            ((brief_host_of Cx signal).handshake.poll h cx)
    handshakes none cx = tt
    handshakes (some zero) cx = tt
    handshakes (some (suc n)) cx = omega arith

-- Everything is taken, and then the signal comes.
abbrev pub to_draining : List (Turn brief_host)
to_draining =
    main First.incoming_first tt
    ∷ main First.incoming_first tt
    ∷ main First.incoming_first tt
    ∷ main First.incoming_first tt
    ∷ main First.sig_first tt
    ∷ []

abbrev pub six_polls : ℕ → List (Turn brief_host) → List (Turn brief_host)
six_polls i rest =
    task i in_order tt
    ∷ task i in_order tt
    ∷ task i in_order tt
    ∷ task i in_order tt
    ∷ task i in_order tt
    ∷ task i in_order tt
    ∷ rest

-- As many polls of each of the three tasks as a new one may need.
abbrev pub enough_polls : List (Turn brief_host)
enough_polls = six_polls 0 (six_polls 1 (six_polls 2 []))

abbrev pub drained : Server brief_host
drained = run brief_host to_draining (start brief_host (some (some 1)) true two_connections)

drained-draining : drained.phase ≡ Phase.draining
unfolding run start turn main_turn serve_tcp_incoming handle_accept_error poll_fuse
drained-draining = refl

drained-Covers :
    Covers brief_host AskedBriefly rounds_left handshake_rounds 1 1
      (λ i. polls_of i enough_polls)
      drained.tasks
unfolding run start turn main_turn serve_tcp_incoming handle_accept_error poll_fuse
drained-Covers = (omega arith, (omega arith, (omega arith, tt)))

polls-IsOpen : (i : ℕ) → IsOpen {host = brief_host} (task i in_order tt)
polls-IsOpen i = ((λ n. inr (inr (inl refl))), (λ n. inl refl))

pub six_polls-IsOpen :
    (i : ℕ) (rest : List (Turn brief_host)) → All IsOpen rest → All IsOpen (six_polls i rest)
six_polls-IsOpen i rest h = (
  polls-IsOpen i,
  (polls-IsOpen i, (polls-IsOpen i, (polls-IsOpen i, (polls-IsOpen i, (polls-IsOpen i, h))))),
)

shutdown_completes_example :
    (main_turn brief_host First.sig_first tt (run brief_host enough_polls drained)).phase
    ≡ Phase.returned
shutdown_completes_example =
    shutdown_completes brief_host AskedBriefly rounds_left handshake_rounds 1 1
      (brief_host-Prompt (Unit {0}) (delay tt)) counting_watch-IsWatch (some (some 1)) true
      two_connections to_draining enough_polls First.sig_first tt drained-draining
      (six_polls-IsOpen 0 (six_polls 1 (six_polls 2 []))
        (six_polls-IsOpen 1 (six_polls 2 []) (six_polls-IsOpen 2 [] tt)))
      drained-Covers
