-- ===== src/Tests/Connections.antt =====
-- A connection whose age timer and signal fire in one poll (src/http.rs).
use hyper_server.Prelude.{
  zero, suc, ◌<◌, ◌≤◌, arith, inl, [], ◌∷◌, ℕ, ◌≡◌, refl, Option, none, some,
}
use hyper_server.Future.{waits, Stays}
use hyper_server.Fuse.{poll_fuse}
use hyper_server.Connection.{
  created, pending_for_ever, Serving, poll_sleep, poll_branch, select, age_handler, sig_handler,
  run_loop, poll_serving,
}
use hyper_server.Connection.Shutdowns.{budget, Balanced, run_loop_suffices, poll_serving-Balanced}
use hyper_server.Connection.Safety.{ServingLive, poll_serving-Stays}
use hyper_server.Connection.Select.{Round}
use hyper_server.Connection.Closing.{Closes}
use hyper_server.Connection.ServedOut.{still_served, closing_connection_is_served_out}
use hyper_server.Tests.Fixtures.{
  closed_conn, ask, poll_conn, MockConn, open_conn, requests_of, ConnLive, DelayLive, delays,
  delays-SoundParts, delays-Counts, in_order,
}

-- The age limit and the signal are due at the first poll.
abbrev due : Serving MockConn ℕ (Option ℕ) (Option ℕ)
due = record {
  conn = open_conn 0 9;
  sleep = created (some 0);
  sig = record { inner = some (some 0) };
}

-- After it: two requests for a graceful shutdown, and three polls of the connection.
abbrev asked_twice : Serving MockConn ℕ (Option ℕ) (Option ℕ)
asked_twice = record {
  conn = open_conn 2 6;
  sleep = pending_for_ever;
  sig = record { inner = none };
}

fires_both : poll_serving delays in_order due tt ≡ waits asked_twice
unfolding poll_serving run_loop select poll_branch poll_sleep poll_fuse sig_handler age_handler
fires_both = refl

run_loop_suffices_example :
    run_loop delays 3 in_order due tt ≡ some (poll_serving delays in_order due tt)
run_loop_suffices_example = run_loop_suffices delays in_order due tt

poll_serving-Balanced_example :
    Balanced delays requests_of delays-Counts
      (budget delays requests_of delays-Counts due)
      (poll_serving delays in_order due tt)
poll_serving-Balanced_example =
    poll_serving-Balanced delays requests_of delays-Counts in_order due tt

poll_serving-Stays_example :
    Stays (ServingLive delays ConnLive DelayLive DelayLive) (poll_serving delays in_order due tt)
poll_serving-Stays_example =
    poll_serving-Stays delays ConnLive DelayLive DelayLive delays-SoundParts in_order due tt
      (record { conn = tt; sleep = tt; sig = tt })

-- A connection that has been asked, with the polls that it has left.
abbrev HasBeenAsked : MockConn → Type 0
HasBeenAsked (open_conn zero rounds) = ⊥
HasBeenAsked (open_conn (suc requests) rounds) = Unit
HasBeenAsked (closed_conn requests) = Unit

abbrev rounds_of : MockConn → ℕ
rounds_of (open_conn requests rounds) = rounds
rounds_of (closed_conn requests) = 0

delays-Closes : Closes delays HasBeenAsked rounds_of
delays-Closes = record { on_poll = polled; on_shutdown = asked; on_again = again }
  where
    polled :
        (c : MockConn) (cx : Unit {0})
        → HasBeenAsked c
        → Round Unit
            (λ c'. HasBeenAsked c' × (rounds_of c' < rounds_of c))
            (λ _ _. Unit {0})
            (poll_conn c cx)
    polled (open_conn zero zero) cx h = tt
    polled (open_conn zero (suc n)) cx h = absurd h
    polled (open_conn (suc k) zero) cx h = tt
    polled (open_conn (suc k) (suc n)) cx h = (tt, omega arith)
    polled (closed_conn requests) cx h = tt

    asked : (c : MockConn) → HasBeenAsked (ask c)
    asked (open_conn requests rounds) = tt
    asked (closed_conn requests) = tt

    again : (c : MockConn) → HasBeenAsked c → rounds_of (ask c) ≤ rounds_of c
    again (open_conn requests rounds) h = omega arith
    again (closed_conn requests) h = omega arith

abbrev closing : Serving MockConn ℕ (Option ℕ) (Option ℕ)
closing = record {
  conn = open_conn 1 1;
  sleep = created (some 0);
  sig = record { inner = some (some 1) };
}

closing_connection_is_served_out_example :
    still_served delays ((tt, in_order) ∷ (tt, in_order) ∷ []) closing ≡ none
closing_connection_is_served_out_example =
    closing_connection_is_served_out delays HasBeenAsked rounds_of delays-Closes
      ((tt, in_order) ∷ (tt, in_order) ∷ []) closing tt ((λ i. inl refl), ((λ i. inl refl), tt))
      (omega arith)
