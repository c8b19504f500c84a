-- ===== src/Services.antt =====
-- The HTTP services of the repository: `test_handler` of the tests of src/http.rs, `EchoService` of
-- benches/hello_world_tower_hyper_tls_tcp.rs, and `hello` with `AddHeaderLayer` of
-- examples/tower_service_fn.rs.
pub mod Answers
pub mod Layers
pub mod Requests
use text.Mathlib.Text.{◌==◌}
use hyper_server.Prelude.{
  ℕ, zero, suc, ◌*◌, String, Bool, true, false, ◌&&◌, if◌then◌else◌, Result, ok, err, List, [], ◌∷◌,
}
use hyper_server.Future.{Future, Polled, panics, waits, completes}

-- `hyper::Method`, told apart as far as the services do.
pub data Method : Type 0 where
  get post : Method
  other_method : (id : ℕ) → Method

abbrev is_get : Method → Bool
is_get get = true
is_get _ = false

abbrev is_post : Method → Bool
is_post post = true
is_post _ = false

-- The code that is not here: collecting a body, tokio's `sleep`, and the types of the `http` crate.
-- Bytes are lists of numbers, and `bytes` is the encoding of a literal.
pub record Http : Type 1 where
  pub Incoming : Type 0
  pub Cx : Type 0
  pub Collecting : Type 0
  pub Failure : Type 0
  pub Timer : Type 0
  pub Response : Type 0
  pub bytes : String → List ℕ
  pub collect : Incoming → Collecting
  pub collecting : Future Cx Collecting (Result Failure (List ℕ))
  pub start_sleep : (milliseconds : ℕ) → Cx → Timer
  pub sleep : Future Cx Timer (Unit {0})
  pub new_response : List ℕ → Response
  pub set_status : ℕ → Response → Response
  pub insert_header : String → String → Response → Response

pub record Request (Incoming : Type 0) : Type 0 where
  pub method : Method
  pub path : String
  pub body : Incoming

-- `vec![byte; count]`
pub repeated : ℕ → ℕ → List ℕ
repeated byte zero = []
repeated byte (suc count) = byte ∷ repeated byte count

-- Where a service's future stands: called, in the `.await` of the body or of a sleep, or returned.
pub data Handling (Incoming Collecting Timer : Type 0) : Type 0 where
  called : Request Incoming → Handling Incoming Collecting Timer
  collecting : Collecting → Handling Incoming Collecting Timer
  sleeping : Timer → Handling Incoming Collecting Timer
  answered : Handling Incoming Collecting Timer

module _ (http : Http) where
  open http use {Incoming, Cx, Collecting, Failure, Timer, Response}

  abbrev pub Handler : Type 0
  Handler = Handling Incoming Collecting Timer

  abbrev pub Answered : Type 0
  Answered = Polled Handler (Result Failure Response)

  abbrev reply : Response → Answered
  reply response = completes (ok response) answered

  -- The response of the last arm: a body, with the status set to `StatusCode::NOT_FOUND`.
  abbrev pub not_found : List ℕ → Response
  not_found body = http.set_status 404 (http.new_response body)

  -- `req.collect().await?.to_bytes()`, and the response with that body.
  after_collect : Polled Collecting (Result Failure (List ℕ)) → Answered
  after_collect panics = panics
  after_collect (waits c) = waits (collecting c)
  after_collect (completes (err e) c) = completes (err e) answered
  after_collect (completes (ok body) c) = reply (http.new_response body)

  after_sleep : Polled Timer (Unit {0}) → Answered
  after_sleep panics = panics
  after_sleep (waits t) = waits (sleeping t)
  after_sleep (completes u t) = reply (http.new_response (http.bytes "Delayed response"))

  -- The `match` of `test_handler`.
  test_arms : Request Incoming → Cx → Answered
  unfolding after_collect after_sleep
  test_arms req cx =
      if is_get req.method && (req.path == "/")
      then reply (http.new_response (http.bytes "Hello, World!"))
      else if is_post req.method && (req.path == "/echo")
      then after_collect (http.collecting.poll (http.collect req.body) cx)
      else if is_get req.method && (req.path == "/delay")
      then after_sleep (http.sleep.poll (http.start_sleep 100 cx) cx)
      else if is_get req.method && (req.path == "/large")
      then reply (http.new_response (repeated 120 (1024 * 1024)))
      else reply (not_found (http.bytes "Not Found"))

  unfoldable pub poll_test_handler : Handler → Cx → Answered
  unfolding test_arms
  poll_test_handler (called req) cx = test_arms req cx
  poll_test_handler (collecting c) cx = after_collect (http.collecting.poll c cx)
  poll_test_handler (sleeping t) cx = after_sleep (http.sleep.poll t cx)
  poll_test_handler answered cx = panics

  abbrev pub test_handler : Future Cx Handler (Result Failure Response)
  test_handler = record { poll = poll_test_handler }

  -- `EchoService`
  pub record EchoService : Type 0 where
    pub hello_response : List ℕ
    pub not_found_response : List ℕ

  -- `EchoService::new`
  abbrev pub new_echo : EchoService
  new_echo = record {
    hello_response = http.bytes "Hello, World!";
    not_found_response = http.bytes "Not Found";
  }

  -- `poll_ready`: always `Ready(Ok(()))`.
  abbrev pub poll_ready_echo : EchoService → Cx → Polled EchoService (Result ⊥ (Unit {0}))
  poll_ready_echo service cx = completes (ok tt) service

  -- `req.collect().await.unwrap().to_bytes()`
  after_unwrap : Polled Collecting (Result Failure (List ℕ)) → Answered
  after_unwrap panics = panics
  after_unwrap (waits c) = waits (collecting c)
  after_unwrap (completes (err e) c) = panics
  after_unwrap (completes (ok body) c) = reply (http.new_response body)

  -- The `match` of `call`.
  echo_arms : EchoService → Request Incoming → Cx → Answered
  unfolding after_unwrap
  echo_arms service req cx =
      if is_get req.method && (req.path == "/")
      then reply (http.new_response service.hello_response)
      else if is_post req.method && (req.path == "/echo")
      then after_unwrap (http.collecting.poll (http.collect req.body) cx)
      else reply (not_found service.not_found_response)

  -- The future of `call`; it is never in a sleep.
  unfoldable pub poll_echo : EchoService → Handler → Cx → Answered
  unfolding echo_arms
  poll_echo service (called req) cx = echo_arms service req cx
  poll_echo service (collecting c) cx = after_unwrap (http.collecting.poll c cx)
  poll_echo service (sleeping t) cx = panics
  poll_echo service answered cx = panics

  abbrev pub echo : EchoService → Future Cx Handler (Result Failure Response)
  echo service = record { poll = poll_echo service }
