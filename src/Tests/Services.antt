-- ===== src/Tests/Services.antt =====
-- The services on a request for the echo (src/http.rs, benches/, examples/tower_service_fn.rs).
use Prim.Native.String.{len}
use text.Mathlib.Text.{◌==◌}
use hyper_server.Prelude.{
  ℕ, zero, suc, refl, if◌then◌else◌, String, Option, none, some, List, [], ◌∷◌, Result, ok,
}
use hyper_server.Future.{Polled, panics, waits, completes, Finishes}
use hyper_server.Services.{Http, Request, post, called, test_handler, echo, new_echo}
use hyper_server.Services.Answers.{echo_agrees_with_test_handler}
use hyper_server.Services.Layers.{Service, hello, hello_called, hello_returned, add_header_layer}
use hyper_server.Tests.Fixtures.{delay}

-- A body takes one poll that is not ready.
abbrev poll_body : Option (ℕ × List ℕ) → Unit {0} → Polled (Option (ℕ × List ℕ)) (Result ℕ (List ℕ))
poll_body none cx = panics
poll_body (some (zero, body)) cx = completes (ok body) none
poll_body (some (suc n, body)) cx = waits (some (n, body))

-- `HeaderMap::insert`, on the values of each header.
abbrev insert : String → String → (String → List String) → String → List String
insert name value headers other = if other == name then value ∷ [] else headers other

-- A response: its status, its headers and its body.
abbrev http : Http
http = record {
  Incoming = List ℕ;
  Cx = Unit {0};
  Collecting = Option (ℕ × List ℕ);
  Failure = ℕ;
  Timer = Option ℕ;
  Response = ℕ × (String → List String) × List ℕ;
  bytes = λ text. len text ∷ [];
  collect = λ body. some (1, body);
  collecting = record { poll = poll_body };
  start_sleep = λ milliseconds cx. some 3;
  sleep = delay tt;
  new_response = λ body. (200, (λ name. []), body);
  set_status = λ status (old, headers, body). (status, headers, body);
  insert_header = λ name value (status, headers, body). (status, insert name value headers, body);
}

abbrev echo_request : Request (List ℕ)
echo_request = record { method = post; path = "/echo"; body = 7 ∷ 8 ∷ [] }

body_is_collected : Finishes http.collecting 1 (http.collect echo_request.body) (ok (7 ∷ 8 ∷ []))
body_is_collected = λ cx. (some (0, 7 ∷ 8 ∷ []), refl, λ cx'. (none, refl))

echo_agrees_with_test_handler_example :
    (rounds : ℕ) × (response : http.Response) × Finishes
      (test_handler http)
      rounds
      (called echo_request)
      (ok response)
    × Finishes (echo http (new_echo http)) rounds (called echo_request) (ok response)
echo_agrees_with_test_handler_example =
    echo_agrees_with_test_handler http echo_request 1 (7 ∷ 8 ∷ []) body_is_collected refl refl

hello_answers :
    Finishes
      (hello http {Req = ℕ} {Failure = ℕ}).future
      0
      hello_called
      (ok (200, (λ name. []), 13 ∷ []))
hello_answers = λ cx. (hello_returned, refl)

abbrev status_of : http.Response → ℕ
status_of (status, headers, body) = status

abbrev body_of : http.Response → List ℕ
body_of (status, headers, body) = body

abbrev get_all : String → http.Response → List String
get_all name (status, headers, body) = headers name

-- The layer over a service that has the header already.
abbrev below : Service (Unit {0}) ℕ http.Response ℕ
below = add_header_layer http (hello http)
