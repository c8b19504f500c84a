-- ===== src/Connection/ServedOut.antt =====
-- A connection that has been asked to shut down, polled to its end (src/http.rs).
use hyper_server.Prelude.{
  ℕ, zero, suc, ◌+◌, ◌≤◌, ◌<◌, ◌≡◌, refl, Option, none, some, List, [], ◌∷◌, length, All, arith,
}
use hyper_server.Future.{Polled, panics, waits, completes}
use hyper_server.Connection.Select.{Round}
use hyper_server.Connection.Closing.{Closes, Near, poll_serving-Rested}
use hyper_server.Connection.Listed.{Listed}
use hyper_server.Connection.{Branch, conn_branch, Serving, Parts, poll_serving}

module _ {Cx C E Duration Timer W : Type 0} (parts : Parts Cx C E Duration Timer W) where
  -- A poll's context, and the orders that `select!` draws in it.
  abbrev pub Drawn : Type 0
  Drawn = Cx × (ℕ → List Branch)

  abbrev pub Asks : Drawn → Type 0
  Asks (cx, draws) = (i : ℕ) → Listed conn_branch (draws i)

  abbrev pub rest_of :
      Polled (Serving C Duration Timer W) (Unit {0})
      → (Serving C Duration Timer W → Option (Serving C Duration Timer W))
      → Option (Serving C Duration Timer W)
  rest_of (waits t) rest = rest t
  rest_of _ rest = none

  -- What is left of the function's future after some polls, if it has not ended.
  unfoldable pub still_served :
      List Drawn → Serving C Duration Timer W → Option (Serving C Duration Timer W)
  still_served [] s = some s
  still_served ((cx, draws) ∷ polls) s =
      rest_of (poll_serving parts draws s cx) (still_served polls)

module _ {Cx C E Duration Timer W : Type 0} (parts : Parts Cx C E Duration Timer W)
    (Closing : C → Type 0) (left : C → ℕ) where
  module _ (closes : Closes parts Closing left) where
    served_out_within :
        (polls : List (Drawn parts)) (n : ℕ) (s : Serving C Duration Timer W)
        → All (Asks parts) polls
        → Near parts Closing left n s
        → n ≤ length polls
        → still_served parts polls s ≡ none
    unfolding still_served
    served_out_within [] n s asks h fits = absurd (omega (arith, h.1))
    served_out_within ((cx, draws) ∷ polls) zero s asks h fits = absurd (omega (arith, h.1))
    served_out_within ((cx, draws) ∷ polls) (suc n) s asks h fits =
        go (poll_serving parts draws s cx)
          (poll_serving-Rested parts Closing left closes cx n draws s asks.0
            (h.0, omega (arith, h.1)))
          (λ t k. served_out_within polls n t asks.1 k (omega arith))
      where
        go :
            (r : Polled (Serving C Duration Timer W) (Unit {0}))
            → Round Unit (Near parts Closing left n) (λ _ _. Unit {0}) r
            → ((t : Serving C Duration Timer W)
                → Near parts Closing left n t
                → still_served parts polls t ≡ none)
            → rest_of parts r (still_served parts polls) ≡ none
        go panics k next = refl
        go (waits t) k next = next t k
        go (completes a t) k next = refl

    -- Once the connection is closing, `serve_http_connection` has ended after one poll more than the
    -- connection has left, in whatever order the branches are polled, if the connection's is among them
    -- each time, and whatever the age timer and the signal do.
    pub closing_connection_is_served_out :
        (polls : List (Drawn parts)) (s : Serving C Duration Timer W)
        → Closing s.conn
        → All (Asks parts) polls
        → left s.conn < length polls
        → still_served parts polls s ≡ none
    closing_connection_is_served_out polls s closing asks fits =
        served_out_within polls (left s.conn + 1) s asks (closing, omega arith) (omega arith)
