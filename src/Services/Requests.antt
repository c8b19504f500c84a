-- ===== src/Services/Requests.antt =====
-- The requests of the tests of src/http.rs and their assertions, and why they hold.
use hyper_server.Prelude.{
  ℕ, zero, suc, ◌*◌, ◌≡◌, refl, eqb, eqb_refl, same_bytes, same_bytes_refl, length, Bool, true,
  false, ◌&&◌, String, Option, none, some, List, [], ok, arith,
}
use hyper_server.Future.{Finishes}
use hyper_server.Services.{
  Method, get, post, Http, called, answered, repeated, poll_test_handler, test_handler,
}
use hyper_server.Services.Answers.{collecting-Finishes, called-Finishes}

-- The client's side of a request: the status and the body of a response, and a body that is sent, as
-- the server receives it.
pub record Exchange (http : Http) : Type 0 where
  pub status : http.Response → ℕ
  pub body : http.Response → List ℕ
  pub upload : List ℕ → http.Incoming

-- Every one of so many tasks passes its test.
abbrev pub all_pass : ℕ → (ℕ → Bool) → Bool
all_pass zero test = true
all_pass (suc n) test = test n && all_pass n test

pub all_pass_of : (n : ℕ) (test : ℕ → Bool) → ((i : ℕ) → test i ≡ true) → all_pass n test ≡ true
all_pass_of zero test h = refl
all_pass_of (suc n) test h = rw (h n, all_pass_of n test h) refl

module _ (http : Http) (exchange : Exchange http) where
  open http use {Response}
  open exchange use {status, body, upload}

  -- `sender.send_request(req).await` on a connection, `none` being an error, which fails the test.
  abbrev pub Sender : Type 0
  Sender = Method → String → List ℕ → Option Response

  abbrev pub assert_body : Option Response → List ℕ → Bool
  assert_body none expected = false
  assert_body (some res) expected = eqb (status res) 200 && same_bytes (body res) expected

  abbrev pub assert_length : Option Response → ℕ → Bool
  assert_length none expected = false
  assert_length (some res) expected = eqb (status res) 200 && eqb (length (body res)) expected

  -- `vec![b'x'; 1024 * 1024]`
  abbrev large_data : List ℕ
  large_data = repeated 120 (1024 * 1024)

  -- The requests of `test_large_payload` and of `test_tls_large_payload`.
  pub large_payload : Sender → Bool
  large_payload send =
      assert_length (send get "/large" []) (1024 * 1024)
      && assert_length (send post "/echo" large_data) (length large_data)

  pub concurrent_large_payloads : (ℕ → Sender) → Bool
  concurrent_large_payloads clients =
      all_pass 3 (λ i. assert_length (clients i get "/large" []) (1024 * 1024))

  pub tls_basic_request : Sender → Bool
  tls_basic_request send = assert_body (send get "/" []) (http.bytes "Hello, World!")

  pub tls_multiple_requests_same_connection : Sender → Bool
  unfolding tls_basic_request
  tls_multiple_requests_same_connection send = all_pass 3 (λ i. tls_basic_request send)

  pub tls_concurrent_connections : (ℕ → Sender) → Bool
  unfolding tls_basic_request
  tls_concurrent_connections clients = all_pass 5 (λ i. tls_basic_request (clients i))

  -- The types of the `http` crate, and bodies that arrive whole.
  pub record IsExchange : Type 0 where
    pub status-new : (b : List ℕ) → status (http.new_response b) ≡ 200
    pub body-new : (b : List ℕ) → body (http.new_response b) ≡ b
    pub arrives :
        (b : List ℕ) → (n : ℕ) × Finishes http.collecting n (http.collect (upload b)) (ok b)

  -- The server at the other end answers with `test_handler`.
  abbrev pub IsServed : Sender → Type 0
  IsServed send =
      (method : Method) (path : String) (b : List ℕ) (n : ℕ) (res : Response)
      → Finishes (test_handler http) n
          (called (record { method = method; path = path; body = upload b })) (ok res)
      → send method path b ≡ some res

  module _ (laws : IsExchange) where
    pub root-Finishes :
        (x : http.Incoming)
        → Finishes
            (test_handler http)
            0
            (called (record { method = get; path = "/"; body = x }))
            (ok (http.new_response (http.bytes "Hello, World!")))
    unfolding poll_test_handler
    root-Finishes x cx = (answered, refl)

    large-Finishes :
        (x : http.Incoming)
        → Finishes
            (test_handler http)
            0
            (called (record { method = get; path = "/large"; body = x }))
            (ok (http.new_response large_data))
    unfolding poll_test_handler
    large-Finishes x cx = (answered, refl)

    echo-Finishes :
        (b : List ℕ)
        → (n : ℕ) × Finishes
            (test_handler http)
            n
            (called (record { method = post; path = "/echo"; body = upload b }))
            (ok (http.new_response b))
    unfolding poll_test_handler
    echo-Finishes b =
        let (n, f) = laws.arrives b in
        (
          n,
          called-Finishes http (test_handler http) n _ _ (λ cx. refl)
              (collecting-Finishes http n (http.collect (upload b)) b f).0,
        )

    length-repeated : (byte n : ℕ) → length (repeated byte n) ≡ n
    unfolding repeated
    length-repeated byte zero = refl
    length-repeated byte (suc n) = omega (arith, length-repeated byte n)

    pub asserted_body :
        (r : Option Response) (b : List ℕ) → r ≡ some (http.new_response b) → assert_body r b ≡ true
    asserted_body r b e = rw (e, laws.status-new b, laws.body-new b, same_bytes_refl b) refl

    asserted_length :
        (r : Option Response) (b : List ℕ) (n : ℕ)
        → r ≡ some (http.new_response b)
        → length b ≡ n
        → assert_length r n ≡ true
    asserted_length r b n e l = rw (e, laws.status-new b, laws.body-new b, l, eqb_refl n) refl

    basic :
        (send : Sender)
        → IsServed send
        → assert_body (send get "/" []) (http.bytes "Hello, World!") ≡ true
    basic send served = asserted_body _ _ (served get "/" [] 0 _ (root-Finishes (upload [])))

    pub large :
        (send : Sender) → IsServed send → assert_length (send get "/large" []) (1024 * 1024) ≡ true
    large send served =
        asserted_length _ large_data _ (served get "/large" [] 0 _ (large-Finishes (upload [])))
          (length-repeated 120 (1024 * 1024))

    echoed :
        (send : Sender)
        → IsServed send
        → (b : List ℕ) → assert_length (send post "/echo" b) (length b) ≡ true
    echoed send served b =
        let (n, f) = echo-Finishes b in asserted_length _ b _ (served post "/echo" b n _ f) refl

    pub payload_holds : (send : Sender) → IsServed send → large_payload send ≡ true
    unfolding large_payload
    payload_holds send served = rw (large send served, echoed send served large_data) refl

    pub basic_holds : (send : Sender) → IsServed send → tls_basic_request send ≡ true
    unfolding tls_basic_request
    basic_holds send served = basic send served

    pub repeated_holds :
        (send : Sender) → IsServed send → tls_multiple_requests_same_connection send ≡ true
    unfolding tls_multiple_requests_same_connection tls_basic_request
    repeated_holds send served = all_pass_of 3 _ (λ i. basic send served)

    -- If bodies arrive whole: over connections to a server that answers with `test_handler`, the
    -- assertions on the responses hold in the tests of single, repeated, concurrent and large requests.
    pub assertions_on_responses_hold :
        (clients : ℕ → Sender)
        → ((i : ℕ) → IsServed (clients i))
        → (large_payload (clients 0) ≡ true)
          × (concurrent_large_payloads clients ≡ true)
          × (tls_basic_request (clients 0) ≡ true)
          × (tls_multiple_requests_same_connection (clients 0) ≡ true)
          × (tls_concurrent_connections clients ≡ true)
    unfolding large_payload concurrent_large_payloads tls_basic_request
        tls_multiple_requests_same_connection tls_concurrent_connections
    assertions_on_responses_hold clients served = (
      payload_holds (clients 0) (served 0),
      all_pass_of 3 _ (λ i. large (clients i) (served i)),
      basic_holds (clients 0) (served 0),
      repeated_holds (clients 0) (served 0),
      all_pass_of 5 _ (λ i. basic (clients i) (served i)),
    )
