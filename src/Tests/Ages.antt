-- ===== src/Tests/Ages.antt =====
-- A connection that grows too old, and one that is asked to shut down while it answers (src/http.rs).
use hyper_server.Prelude.{
  ◌⊎◌, ◌≤◌, ℕ, zero, suc, ◌≡◌, refl, inl, inr, true, Option, none, some, List, [], ◌∷◌, Result, ok,
  arith,
}
use hyper_server.Future.{Polled, panics, waits, completes, Finishes}
use hyper_server.Fuse.{poll_fuse}
use hyper_server.Task.{parts, watcher}
use hyper_server.Connection.{
  created, pending_for_ever, Serving, Parts, start_serving, poll_serving, run_loop, select,
  poll_branch, poll_sleep, sig_handler, age_handler,
}
use hyper_server.Connection.Select.{Round}
use hyper_server.Connection.ServedOut.{Drawn, still_served}
use hyper_server.Connection.Aging.{Fires, AsksBoth, aged_connection_ends}
use hyper_server.Connection.Requests.{
  goes_on, returned, fate, Ended, Answers, requests_are_answered,
}
use hyper_server.Tests.Fixtures.{open_conn, delay, delays, in_order}
use hyper_server.Tests.Completions.{
  brief_host, AskedBriefly, rounds_left, brief_host-Closes, brief_host-Prompt,
}

timer-Finishes : (d : ℕ) → Finishes (parts brief_host).timer d (some d) tt
timer-Finishes zero = λ (cx, channel). (none, refl)
timer-Finishes (suc d) = λ (cx, channel). (some d, refl, timer-Finishes d)

brief_host-Fires : Fires (parts brief_host) (λ d. d)
brief_host-Fires d cx = timer-Finishes d

abbrev poll_of : Drawn (parts brief_host)
poll_of = ((tt, (1, true)), in_order)

abbrev five_polls : List (Drawn (parts brief_host))
five_polls = poll_of ∷ poll_of ∷ poll_of ∷ poll_of ∷ poll_of ∷ []

abbrev asks : AsksBoth (parts brief_host) poll_of
asks = ((λ i. inl refl), λ i. inr (inl refl))

-- The connection would take nine polls; its age is two.
aged_connection_ends_example :
    still_served
      (parts brief_host)
      five_polls
      (start_serving (λ r. watcher) (open_conn 0 9) (some tt) (some 2))
    ≡ none
aged_connection_ends_example =
    aged_connection_ends (parts brief_host) AskedBriefly rounds_left (λ d. d)
      (brief_host-Closes (Unit {0}) (delay tt)) brief_host-Fires 1
      (brief_host-Prompt (Unit {0}) (delay tt)).bounded (λ r. watcher) (open_conn 0 9) (some tt) 2
      five_polls (asks, (asks, (asks, (asks, (asks, tt))))) (omega arith)

-- A connection that answers its one request after so many polls, and ends.
data Slow : Type 0 where
  answering : ℕ → Slow
  answered : Slow

abbrev poll_slow : Slow → Unit {0} → Polled Slow (Result ℕ (Unit {0}))
poll_slow (answering zero) cx = completes (ok tt) answered
poll_slow (answering (suc n)) cx = waits (answering n)
poll_slow answered cx = panics

abbrev slow : Parts (Unit {0}) Slow ℕ ℕ (Option ℕ) (Option ℕ)
slow = record {
  connection = record { poll = poll_slow };
  graceful_shutdown = λ c. c;
  start_sleep = delays.start_sleep;
  timer = delays.timer;
  changed = delays.changed;
}

abbrev responses : Slow → ℕ
responses (answering n) = 0
responses answered = 1

slow-Answers : Answers slow (λ c. 1) responses (λ c. ⊥)
slow-Answers = record { on_poll = polled; on_shutdown = λ c. (refl, refl) }
  where
    polled :
        (c : Slow) (cx : Unit {0})
        → Round Unit
            (λ c'. (1 ≤ 1) × (responses c ≤ responses c'))
            (λ r c'. (1 ≤ 1) × Ended slow (λ c. 1) responses (λ c. ⊥) r c')
            (poll_slow c cx)
    polled (answering zero) cx = (omega arith, refl)
    polled (answering (suc n)) cx = (omega arith, omega arith)
    polled answered cx = tt

-- The signal and the age are due at once.
abbrev in_flight : Serving Slow ℕ (Option ℕ) (Option ℕ)
in_flight = record {
  conn = answering 5;
  sleep = created (some 0);
  sig = record { inner = some (some 0) };
}

abbrev served : Serving Slow ℕ (Option ℕ) (Option ℕ)
served = record { conn = answered; sleep = pending_for_ever; sig = record { inner = none } }

abbrev six_polls : List (Drawn slow)
six_polls =
    (tt, in_order)
    ∷ (tt, in_order)
    ∷ (tt, in_order)
    ∷ (tt, in_order)
    ∷ (tt, in_order)
    ∷ (tt, in_order)
    ∷ []

requests_are_answered_example :
    ((fate slow six_polls in_flight ≡ returned served) → ⊥ ⊎ ((1 ≤ 1) × (◌≡◌ {A = ℕ} 1 1)))
    × ((fate slow six_polls in_flight ≡ goes_on served) → (1 ≤ 1) × (0 ≤ 1))
requests_are_answered_example =
    requests_are_answered slow (λ c. 1) responses (λ c. ⊥) slow-Answers six_polls in_flight served

-- Both are asked for at the first poll, and the request is answered all the same.
answers_in_flight : fate slow six_polls in_flight ≡ returned served
unfolding fate poll_serving run_loop select poll_branch poll_sleep poll_fuse sig_handler age_handler
answers_in_flight = refl
