-- ===== src/Connection/Heeding.antt =====
-- A connection that heeds its signal: once the signal is used up the connection is closing (src/http.rs).
use hyper_server.Prelude.{ℕ, ◌+◌, ◌≤◌, ◌<◌, ◌≡◌, refl, Option, none, some, List, Result, arith}
use hyper_server.Future.{Polled, panics, waits, completes, map_polled}
use hyper_server.Fuse.{settle, poll_fuse}
use hyper_server.Connection.Select.{Round, Ends}
use hyper_server.Connection.Rounds.{armed, poll_serving-Ends}
use hyper_server.Connection.Listed.{Listed}
use hyper_server.Connection.Signal.{Delivered, Rests, poll_serving-Rests}
use hyper_server.Connection.Closing.{Closes, Near, poll_serving-Rested}
use hyper_server.Connection.{
  Branch, conn_branch, sleep_branch, sig_branch, Fired, conn_ended, age_reached, signal_received,
  Serving, Parts, poll_sleep, poll_branch, age_handler, sig_handler, poll_serving,
}

module _ {Cx C E Duration Timer W : Type 0} (parts : Parts Cx C E Duration Timer W)
    (Closing : C → Type 0) (left : C → ℕ) where
  abbrev pub Heeds : Serving C Duration Timer W → Type 0
  Heeds s = s.sig.inner ≡ none → Closing s.conn

  -- Polls that may be needed, at most, once the signal is there: `most` bounds what any connection has
  -- left.
  abbrev pub need_of : ℕ → Option W → C → ℕ
  need_of most none c = left c + 1
  need_of most (some w) c = most + 2

  abbrev pub need : ℕ → Serving C Duration Timer W → ℕ
  need most s = need_of most s.sig.inner s.conn

  module _ (closes : Closes parts Closing left) (cx : Cx) where
    branch-Heeds :
        (b : Branch) (s : Serving C Duration Timer W)
        → Heeds s
        → Round Unit Heeds (λ _ _. Unit {0}) (poll_branch parts b s cx)
    unfolding poll_branch poll_fuse
    branch-Heeds conn_branch s h = go (parts.connection.poll s.conn cx) (closes.on_poll s.conn cx)
      where
        go :
            (r : Polled C (Result E (Unit {0})))
            → (Closing s.conn
                → Round Unit (λ c'. Closing c' × (left c' < left s.conn)) (λ _ _. Unit {0}) r)
            → Round Unit Heeds
                (λ _ _. Unit {0})
                (map_polled {B = Fired E} (λ c. record s { conn = c }) conn_ended r)
        go panics k = tt
        go (waits c) k = λ e. (k (h e)).0
        go (completes r c) k = tt
    branch-Heeds sleep_branch s h = go (poll_sleep parts s.sleep cx)
      where
        go :
            (r : Polled _ (Unit {0}))
            → Round Unit Heeds
                (λ _ _. Unit {0})
                (map_polled {B = Fired E} (λ z. record s { sleep = z }) (λ _. age_reached) r)
        go panics = tt
        go (waits z) = h
        go (completes a z) = tt
    branch-Heeds sig_branch s h = go s.sig.inner h
      where
        watched :
            (r : Polled W (Unit {0}))
            → Round Unit Heeds
                (λ _ _. Unit {0})
                (map_polled {B = Fired E}
                  (λ g. record s { sig = g })
                  (λ _. signal_received)
                  (settle r))
        watched panics = tt
        watched (waits w) = λ e. cc
        watched (completes a w) = tt

        go :
            (o : Option W)
            → (o ≡ none → Closing s.conn)
            → Round Unit Heeds
                (λ _ _. Unit {0})
                (map_polled {B = Fired E}
                  (λ g. record s { sig = g })
                  (λ _. signal_received)
                  (poll_fuse parts.changed (record { inner = o }) cx))
        go none k = k
        go (some w) k = watched (parts.changed.poll w cx)

    pub poll_serving-Heeds :
        (draws : ℕ → List Branch) (s : Serving C Duration Timer W)
        → Heeds s
        → Round Unit Heeds (λ _ _. Unit {0}) (poll_serving parts draws s cx)
    unfolding age_handler sig_handler
    poll_serving-Heeds draws s h =
        ended (poll_serving parts draws s cx)
          (poll_serving-Ends parts Unit Heeds (λ _. Unit) (λ _ _. Unit) (λ r t q. tt)
            (λ t q e. closes.on_shutdown t.conn) (λ t q e. closes.on_shutdown t.conn) cx
            branch-Heeds draws s h).1
      where
        ended :
            (r : Polled (Serving C Duration Timer W) (Unit {0}))
            → Ends parts Unit cx (λ n t. (armed t ≤ n) × Heeds t) (λ _. Unit) r
            → Round Unit Heeds (λ _ _. Unit {0}) r
        ended panics k = tt
        ended (waits t) k = k.1.1
        ended (completes a t) k = tt

    module _ (most : ℕ) where
      pub poll_serving-need :
          ((c : C) → Closing c → left c ≤ most)
          → Delivered parts cx
          → (draws : ℕ → List Branch) → ((n : ℕ) → Listed sig_branch (draws n))
          → ((n : ℕ) → Listed conn_branch (draws n))
          → (s : Serving C Duration Timer W) → Heeds s
          → Round Unit
              (λ t. need most t + 1 ≤ need most s)
              (λ _ _. Unit {0})
              (poll_serving parts draws s cx)
      poll_serving-need bounded delivered draws sigs conns s h =
          go s.sig.inner h (poll_serving parts draws s cx)
            (poll_serving-Rests parts cx delivered draws s sigs) (poll_serving-Heeds draws s h)
            (λ c.
              poll_serving-Rested parts Closing left closes cx (left s.conn) draws s conns
                (c, omega arith))
        where
          go :
              (o : Option W)
              → (o ≡ none → Closing s.conn)
              → (r : Polled (Serving C Duration Timer W) (Unit {0})) → Rests parts cx r
              → Round Unit Heeds (λ _ _. Unit {0}) r
              → (Closing s.conn
                  → Round Unit (Near parts Closing left (left s.conn)) (λ _ _. Unit {0}) r)
              → Round Unit (λ t. need most t + 1 ≤ need_of most o s.conn) (λ _ _. Unit {0}) r
          go o k panics q heeds near = tt
          go o k (completes a t) q heeds near = tt
          go none k (waits t) q heeds near = ground (arith, q, near (k refl))
          go (some w) k (waits t) q heeds near = ground (arith, q, bounded t.conn (heeds q))
