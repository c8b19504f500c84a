-- ===== src/Benchmark.antt =====
-- The measured requests of benches/hello_world_tower_hyper_tls_tcp.rs: `send_request`, and
-- `concurrent_benchmark`, which spawns a task for each request and adds up what they bring.
pub mod Bodies
pub mod Totals
use hyper_server.Prelude.{
  ℕ, zero, suc, ◌+◌, String, Bool, true, false, ◌&&◌, if◌then◌else◌, Result, ok, err, Option, none,
  some, List, [], ◌∷◌, ◌++◌, length, same_bytes,
}
use hyper_server.Future.{Future, Polled, panics, waits, completes}

-- The code that is not here: hyper's client, the body of a response, and the clock. A poll reads the
-- time in its context.
pub record Client : Type 1 where
  pub Cx : Type 0
  pub Url : Type 0
  pub Getting : Type 0
  pub Response : Type 0
  pub Collecting : Type 0
  pub Failure : Type 0
  pub Instant : Type 0
  pub Duration : Type 0
  pub get : Url → Getting
  pub getting : Future Cx Getting (Result Failure Response)
  -- Whether the status is `StatusCode::OK`.
  pub is_ok : Response → Bool
  pub collect : Response → Collecting
  pub collecting : Future Cx Collecting (Result Failure (List ℕ))
  pub bytes : String → List ℕ
  pub now : Cx → Instant
  pub elapsed : Instant → Cx → Duration

module _ (client : Client) where
  open client use {Cx, Url, Getting, Response, Collecting, Failure, Instant, Duration}

  -- Where `send_request` stands.
  pub data Sending : Type 0 where
    called : Url → Sending
    getting : Instant → Getting → Sending
    collecting : Instant → Collecting → Sending
    sent : Sending

  abbrev pub Sent : Type 0
  Sent = Result Failure (Duration × ℕ)

  -- `collect().await?.to_bytes()`, the second assertion, and the result.
  after_body : Instant → Cx → Polled Collecting (Result Failure (List ℕ)) → Polled Sending Sent
  after_body start cx panics = panics
  after_body start cx (waits c) = waits (collecting start c)
  after_body start cx (completes (err e) c) = completes (err e) sent
  after_body start cx (completes (ok body) c) =
      if same_bytes body (client.bytes "Hello, World!")
      then completes (ok (client.elapsed start cx, length body)) sent
      else panics

  -- `client.get(url).await?`, the first assertion, and the body.
  after_get : Instant → Cx → Polled Getting (Result Failure Response) → Polled Sending Sent
  unfolding after_body
  after_get start cx panics = panics
  after_get start cx (waits g) = waits (getting start g)
  after_get start cx (completes (err e) g) = completes (err e) sent
  after_get start cx (completes (ok res) g) =
      if client.is_ok res
      then after_body start cx (client.collecting.poll (client.collect res) cx)
      else panics

  unfoldable pub poll_send_request : Sending → Cx → Polled Sending Sent
  unfolding after_get after_body
  poll_send_request (called url) cx =
      after_get (client.now cx) cx (client.getting.poll (client.get url) cx)
  poll_send_request (getting start g) cx = after_get start cx (client.getting.poll g cx)
  poll_send_request (collecting start c) cx = after_body start cx (client.collecting.poll c cx)
  poll_send_request sent cx = panics

  -- A spawned task: running, or what its handle resolves to; a panic is a `JoinError`.
  pub data Handle : Type 0 where
    running : Sending → Handle
    joined : Option Sent → Handle

  after_poll : Polled Sending Sent → Handle
  after_poll panics = joined none
  after_poll (waits s) = running s
  after_poll (completes r s) = joined (some r)

  pub poll_handle : Cx → Handle → Handle
  unfolding after_poll
  poll_handle cx (running s) = after_poll (poll_send_request s cx)
  poll_handle cx (joined r) = joined r

  -- `concurrent_benchmark` from its second loop on: when it started, the handles that are left, and what
  -- was added up.
  pub record Bench : Type 0 where
    pub started : Instant
    pub handles : List Handle
    pub request_times : List Duration
    pub total_bytes : ℕ

  -- `for _ in 0..num_requests`
  pub spawn_requests : Url → ℕ → List Handle
  spawn_requests url zero = []
  spawn_requests url (suc n) = running (called url) ∷ spawn_requests url n

  unfoldable pub start_bench : Url → ℕ → Cx → Bench
  unfolding spawn_requests
  start_bench url num_requests cx = record {
    started = client.now cx;
    handles = spawn_requests url num_requests;
    request_times = [];
    total_bytes = 0;
  }

  -- `if let Ok(Ok((duration, bytes))) = handle.await`
  pub add_up : Option Sent → List Duration → ℕ → List Duration × ℕ
  add_up (some (ok (duration, bytes))) times total = (times ++ duration ∷ [], total + bytes)
  add_up (some (err e)) times total = (times, total)
  add_up none times total = (times, total)

  -- The second loop in one poll, to the first handle that does not resolve.
  pub await_handles : List Handle → List Duration → ℕ → List Handle × List Duration × ℕ
  unfolding add_up
  await_handles [] times total = ([], times, total)
  await_handles (running s ∷ handles) times total = (running s ∷ handles, times, total)
  await_handles (joined r ∷ handles) times total =
      let (times', total') = add_up r times total in await_handles handles times' total'

  -- `total_time`, and the result, if no handle is left.
  pub after_handles :
      Cx → Instant → List Handle × List Duration × ℕ → Polled Bench (Duration × List Duration × ℕ)
  after_handles cx start ([], times, total) =
      completes (client.elapsed start cx, times, total)
        (record { started = start; handles = []; request_times = times; total_bytes = total })
  after_handles cx start (h ∷ handles, times, total) = waits (record {
    started = start;
    handles = h ∷ handles;
    request_times = times;
    total_bytes = total;
  })

  unfoldable pub poll_bench : Cx → Bench → Polled Bench (Duration × List Duration × ℕ)
  unfolding await_handles after_handles
  poll_bench cx b =
      after_handles cx b.started (await_handles b.handles b.request_times b.total_bytes)

  pub poll_nth : Cx → ℕ → List Handle → List Handle
  unfolding poll_handle
  poll_nth cx i [] = []
  poll_nth cx zero (h ∷ handles) = poll_handle cx h ∷ handles
  poll_nth cx (suc i) (h ∷ handles) = h ∷ poll_nth cx i handles

  pub data BenchTurn : Type 0 where
    bench_poll : Cx → BenchTurn
    request_poll : ℕ → Cx → BenchTurn

  after_bench : Bench → Polled Bench (Duration × List Duration × ℕ) → Bench
  after_bench b panics = b
  after_bench b (waits b') = b'
  after_bench b (completes r b') = b'

  unfoldable pub bench_turn : BenchTurn → Bench → Bench
  unfolding poll_bench after_bench poll_nth
  bench_turn (bench_poll cx) b = after_bench b (poll_bench cx b)
  bench_turn (request_poll i cx) b = record b { handles = poll_nth cx i b.handles }

  unfoldable pub run_bench : List BenchTurn → Bench → Bench
  run_bench [] b = b
  run_bench (t ∷ ts) b = run_bench ts (bench_turn t b)
