-- ===== src/Services/Layers.antt =====
-- `hello`, and the middleware `AddHeaderLayer`, of examples/tower_service_fn.rs.
use hyper_server.Prelude.{ℕ, zero, suc, ◌≡◌, refl, String, List, [], ◌∷◌, Result, ok, err}
use hyper_server.Future.{Future, Polled, panics, completes, map_polled, Finishes}
use hyper_server.Services.{Http}

-- `tower::Service`, for requests of one type: the service's own state, and the futures of its calls.
pub record Service (Cx Req Res Failure : Type 0) : Type 1 where
  pub State : Type 0
  pub Call : Type 0
  pub poll_ready : State → Cx → Polled State (Result Failure (Unit {0}))
  pub call : State → Req → Call × State
  pub future : Future Cx Call (Result Failure Res)

module _ (http : Http) where
  open http use {Cx, Response}

  -- `resp.headers_mut().insert(..)`
  abbrev pub with_header : Response → Response
  with_header resp = http.insert_header "X-Custom-Header" "Hello from middleware!" resp

  -- `hello`: `tower::service_fn` is always ready, and the future is done at its first poll.
  pub data HelloCall : Type 0 where
    hello_called hello_returned : HelloCall

  abbrev pub poll_hello :
      {Failure : Type 0} → HelloCall → Cx → Polled HelloCall (Result Failure Response)
  poll_hello hello_called cx =
      completes (ok (http.new_response (http.bytes "Hello, World!"))) hello_returned
  poll_hello hello_returned cx = panics

  abbrev pub hello : {Req Failure : Type 0} → Service Cx Req Response Failure
  hello = record {
    State = Unit;
    Call = HelloCall;
    poll_ready = λ s cx. completes (ok tt) s;
    call = λ s req. (hello_called, s);
    future = record { poll = poll_hello };
  }

  module _ {Req Failure : Type 0} (inner : Service Cx Req Response Failure) where
    -- `AddHeaderService`
    pub record AddHeaderService : Type 0 where
      pub inner_state : inner.State

    -- `let mut resp = future.await?; ..; Ok(resp)`
    abbrev pub after_inner : Result Failure Response → Result Failure Response
    after_inner (err e) = err e
    after_inner (ok resp) = ok (with_header resp)

    -- `AddHeaderLayer::layer`, with `poll_ready` and `call`.
    abbrev pub add_header_layer : Service Cx Req Response Failure
    add_header_layer = record {
      State = AddHeaderService;
      Call = inner.Call;
      poll_ready = λ s cx.
          map_polled (λ i. record { inner_state = i }) (λ r. r) (inner.poll_ready s.inner_state cx);
      call = λ s req. let (c, i) = inner.call s.inner_state req in (c, record { inner_state = i });
      future = record { poll = λ c cx. map_polled (λ c'. c') after_inner (inner.future.poll c cx) };
    }

    -- Whatever the service below it: a call that is answered is answered after as many polls through the
    -- layer, with the header inserted, and a call that fails fails after as many polls with its error.
    pub add_header_layer-Finishes :
        (rounds : ℕ) (c : inner.Call) (r : Result Failure Response)
        → Finishes inner.future rounds c r
        → Finishes add_header_layer.future rounds c
            (elim r [ ok resp ↦ ok (with_header resp) | err e ↦ err e ])
    add_header_layer-Finishes zero c (ok resp) f = λ cx. let (c', e) = f cx in (c', rw e refl)
    add_header_layer-Finishes zero c (err x) f = λ cx. let (c', e) = f cx in (c', rw e refl)
    add_header_layer-Finishes (suc n) c r f =
        λ cx. let (c', e, g) = f cx in (c', rw e refl, add_header_layer-Finishes n c' r g)

  -- What one sees of a response, and what the `http` crate documents: `HeaderMap::insert` replaces the
  -- values that a header had by the one, and leaves all else as it is.
  module _ (status : Response → ℕ) (body : Response → List ℕ)
      (get_all : String → Response → List String) where
    pub record IsHeaders : Type 0 where
      pub inserted :
          (name value : String) (resp : Response)
          → get_all name (http.insert_header name value resp) ≡ value ∷ []
      pub others :
          (name value other : String) (resp : Response)
          → ¬ (other ≡ name)
          → get_all other (http.insert_header name value resp) ≡ get_all other resp
      pub same_status :
          (name value : String) (resp : Response)
          → status (http.insert_header name value resp) ≡ status resp
      pub same_body :
          (name value : String) (resp : Response)
          → body (http.insert_header name value resp) ≡ body resp

    -- An answer through the layer, by the one of the service below it.
    abbrev pub Layered :
        {Failure : Type 0} → String → Result Failure Response → Result Failure Response → Type 0
    Layered other (ok resp) (ok layered) =
        (get_all "X-Custom-Header" layered ≡ "Hello from middleware!" ∷ [])
        × (get_all other layered ≡ get_all other resp)
        × (status layered ≡ status resp)
        × (body layered ≡ body resp)
    Layered other (err e) (err f) = f ≡ e
    Layered other _ _ = ⊥
