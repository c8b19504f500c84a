-- ===== src/Tests/Benchmarks.antt =====
-- Three measured requests, of which one fails and one panics
-- (benches/hello_world_tower_hyper_tls_tcp.rs).
use hyper_server.Prelude.{ℕ, ◌-◌, ◌≡◌, refl, eqb, Bool, List, [], ◌∷◌, ok, err, Result}
use hyper_server.Future.{Polled, waits, completes}
use hyper_server.Benchmark.{
  Client, Bench, BenchTurn, bench_poll, request_poll, start_bench, poll_bench, bench_turn,
  poll_send_request, run_bench,
}

-- What the network does at a poll: it answers with a status, breaks, or is slow.
data Network : Type 0 where
  answers : (status : ℕ) → Network
  breaks slow : Network

abbrev poll_getting : ℕ → ℕ × Network → Polled ℕ (Result ℕ ℕ)
poll_getting url (time, answers status) = completes (ok status) url
poll_getting url (time, breaks) = completes (err 7) url
poll_getting url (time, slow) = waits url

abbrev is_200 : ℕ → Bool
is_200 status = eqb status 200

abbrev thirteen_bytes : List ℕ
thirteen_bytes = 1 ∷ 2 ∷ 3 ∷ 4 ∷ 5 ∷ 6 ∷ 7 ∷ 8 ∷ 9 ∷ 10 ∷ 11 ∷ 12 ∷ 13 ∷ []

abbrev client : Client
client = record {
  Cx = ℕ × Network;
  Url = ℕ;
  Getting = ℕ;
  Response = ℕ;
  Collecting = ℕ;
  Failure = ℕ;
  Instant = ℕ;
  Duration = ℕ;
  get = λ url. url;
  getting = record { poll = poll_getting };
  is_ok = is_200;
  collect = λ res. res;
  collecting = record { poll = λ c cx. completes (ok thirteen_bytes) c };
  bytes = λ text. thirteen_bytes;
  now = λ cx. cx.0;
  elapsed = λ start cx. cx.0 - start;
}

abbrev three_requests : Bench client
three_requests = start_bench client 5 3 (100, slow)

abbrev turns : List (BenchTurn client)
turns =
    request_poll 0 (101, slow)
    ∷ request_poll 1 (102, breaks)
    ∷ bench_poll (103, slow)
    ∷ request_poll 2 (104, answers 404)
    ∷ request_poll 0 (109, answers 200)
    ∷ []

measured :
    poll_bench client (120, slow) (run_bench client turns three_requests)
    ≡ completes
        (20, 8 ∷ [], 13)
        (record { started = 100; handles = []; request_times = 8 ∷ []; total_bytes = 13 })
unfolding run_bench start_bench bench_turn poll_bench poll_send_request
measured = refl
