-- ===== src/Services/Answers.antt =====
-- What `test_handler` of src/http.rs and `EchoService` of
-- benches/hello_world_tower_hyper_tls_tcp.rs answer.
use text.Mathlib.Text.{◌==◌}
use hyper_server.Prelude.{ℕ, zero, suc, ◌≡◌, refl, Bool, true, false, ◌&&◌, Result, ok, List}
use hyper_server.Future.{Future, Finishes}
use hyper_server.Services.{
  is_get, is_post, Http, Request, called, collecting, answered, Handler, not_found,
  poll_test_handler, test_handler, new_echo, poll_echo, echo,
}

and_false : (b : Bool) → (b && false) ≡ false
and_false true = refl
and_false false = refl

module _ (http : Http) where
  open http use {Incoming, Cx, Collecting, Failure, Timer, Response}

  abbrev echo_future : Future Cx (Handler http) (Result Failure Response)
  echo_future = echo http (new_echo http)

  pub collecting-Finishes :
      (n : ℕ) (c : Collecting) (body : List ℕ)
      → Finishes http.collecting n c (ok body)
      → Finishes (test_handler http) n (collecting c) (ok (http.new_response body))
        × Finishes echo_future n (collecting c) (ok (http.new_response body))
  unfolding poll_test_handler poll_echo
  collecting-Finishes zero c body f = (
    λ cx. let (c', e) = f cx in (answered, rw e refl),
    λ cx. let (c', e) = f cx in (answered, rw e refl),
  )
  collecting-Finishes (suc n) c body f = (
    λ cx. let (c', e, g) = f cx in (collecting c', rw e refl, (collecting-Finishes n c' body g).0),
    λ cx. let (c', e, g) = f cx in (collecting c', rw e refl, (collecting-Finishes n c' body g).1),
  )

  -- The first poll of a request whose body is collected.
  pub called-Finishes :
      (future : Future Cx (Handler http) (Result Failure Response))
      → (n : ℕ) (req : Request Incoming) (a : Result Failure Response)
      → ((cx : Cx)
          → future.poll (called req) cx ≡ future.poll (collecting (http.collect req.body)) cx)
      → Finishes future n (collecting (http.collect req.body)) a
      → Finishes future n (called req) a
  called-Finishes future zero req a same f = λ cx. let (h, e) = f cx in (h, rw (same cx) e)
  called-Finishes future (suc n) req a same f = λ cx. let (h, e, g) = f cx in (h, rw (same cx) e, g)

  -- On every request whose path is neither of the two that only the test handler knows, and whose body
  -- can be collected, the benchmark's service and the test handler take as many polls and give the same
  -- response, and neither of them panics or fails.
  pub echo_agrees_with_test_handler :
      (req : Request Incoming) (n : ℕ) (body : List ℕ)
      → Finishes http.collecting n (http.collect req.body) (ok body)
      → (req.path == "/delay") ≡ false
      → (req.path == "/large") ≡ false
      → (rounds : ℕ) × (response : Response) × Finishes
          (test_handler http)
          rounds
          (called req)
          (ok response)
        × Finishes echo_future rounds (called req) (ok response)
  unfolding poll_test_handler poll_echo
  echo_agrees_with_test_handler req n body f no_delay no_large =
      go (is_get req.method && (req.path == "/")) (is_post req.method && (req.path == "/echo")) refl
        refl
    where
      go :
          (hello echoed : Bool)
          → (is_get req.method && (req.path == "/")) ≡ hello
          → (is_post req.method && (req.path == "/echo")) ≡ echoed
          → (rounds : ℕ) × (response : Response) × Finishes
              (test_handler http)
              rounds
              (called req)
              (ok response)
            × Finishes echo_future rounds (called req) (ok response)
      go true echoed h e = (
        0,
        http.new_response (http.bytes "Hello, World!"),
        λ cx. (answered, rw h refl),
        λ cx. (answered, rw h refl),
      )
      go false true h e = (
        n,
        http.new_response body,
        called-Finishes (test_handler http) n req _ (λ cx. rw (h, e) refl)
            (collecting-Finishes n _ body f).0,
        called-Finishes echo_future n req _ (λ cx. rw (h, e) refl)
            (collecting-Finishes n _ body f).1,
      )
      go false false h e = (
        0,
        not_found http (http.bytes "Not Found"),
        λ cx. (answered, rw (h, e, no_delay, no_large, and_false (is_get req.method)) refl),
        λ cx. (answered, rw (h, e) refl),
      )
