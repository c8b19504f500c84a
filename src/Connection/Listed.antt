-- ===== src/Connection/Listed.antt =====
-- Rules for polls of `serve_http_connection` in which a branch is sure to be polled (src/http.rs).
use mathlib.Core.Path.{subst}
use hyper_server.Prelude.{ℕ, zero, suc, ◌≡◌, sym, Option, none, some, List, [], ◌∷◌, ◌⊎◌, inl, inr}
use hyper_server.Future.{Polled, panics, waits, completes}
use hyper_server.Connection.Select.{Round, select-Round}
use hyper_server.Connection.{
  Branch, Fired, conn_ended, age_reached, signal_received, Serving, Parts, poll_branch, select,
  age_handler, sig_handler, run_loop, poll_serving,
}

-- The branch is among those that are polled.
abbrev pub Listed : Branch → List Branch → Type 0
Listed b [] = ⊥
Listed b (x ∷ bs) = (x ≡ b) ⊎ Listed b bs

-- A poll of the listed branch takes `I` to `J`, every branch keeps both, and the handlers lead back to
-- `I`.
module _ {Cx C E Duration Timer W : Type 0} (parts : Parts Cx C E Duration Timer W) (cx : Cx)
    (listed : Branch) (I J : Serving C Duration Timer W → Type 0)
    (Q : Fired E → Serving C Duration Timer W → Type 0)
    (hit : (s : Serving C Duration Timer W) → I s → Round Unit J Q (poll_branch parts listed s cx))
    (pass : (b : Branch) (s : Serving C Duration Timer W)
      → I s
      → Round Unit I Q (poll_branch parts b s cx))
    (keep : (b : Branch) (s : Serving C Duration Timer W)
      → J s
      → Round Unit J Q (poll_branch parts b s cx)) where
  select-Listed :
      (bs : List Branch) (s : Serving C Duration Timer W)
      → Listed listed bs
      → I s
      → Round Unit J Q (select parts bs s cx)
  unfolding select
  select-Listed [] s l h = absurd l
  select-Listed (b ∷ bs) s l h =
      go (poll_branch parts b s cx) (first l) (select-Round parts Unit cx J Q keep bs)
        (select-Listed bs)
    where
      first :
          Listed listed (b ∷ bs)
          → Round Unit J Q (poll_branch parts b s cx)
            ⊎ (Listed listed bs × Round Unit I Q (poll_branch parts b s cx))
      first (inl e) = inl (subst (λ x. Round Unit J Q (poll_branch parts x s cx)) (sym e) (hit s h))
      first (inr l') = inr (l', pass b s h)

      go :
          (r : Polled (Serving C Duration Timer W) (Fired E))
          → Round Unit J Q r ⊎ (Listed listed bs × Round Unit I Q r)
          → ((t : Serving C Duration Timer W) → J t → Round Unit J Q (select parts bs t cx))
          → ((t : Serving C Duration Timer W)
              → Listed listed bs
              → I t
              → Round Unit J Q (select parts bs t cx))
          → Round Unit J Q (elim r [
            | panics ↦ panics
            | waits s' ↦ select parts bs s' cx
            | completes fired s' ↦ completes fired s'
          ])
      go panics k kept next = tt
      go (waits t) (inl k) kept next = kept t k
      go (waits t) (inr (l', k)) kept next = next t l' k
      go (completes fired t) (inl k) kept next = k
      go (completes fired t) (inr (l', k)) kept next = k

  module _ (ages : (t : Serving C Duration Timer W) → Q age_reached t → I (age_handler parts t))
      (hears : (t : Serving C Duration Timer W)
        → Q signal_received t
        → I (sig_handler parts t)) where
    abbrev Looped : Option (Polled (Serving C Duration Timer W) (Unit {0})) → Type 0
    Looped none = Unit
    Looped (some r) = Round Unit J (λ _ _. Unit {0}) r

    run_loop-Looped :
        (fuel : ℕ) (draws : ℕ → List Branch) (s : Serving C Duration Timer W)
        → ((n : ℕ) → Listed listed (draws n))
        → I s
        → Looped (run_loop parts fuel draws s cx)
    unfolding run_loop
    run_loop-Looped zero draws s among h = tt
    run_loop-Looped (suc fuel) draws s among h =
        go (select parts (draws fuel) s cx) (select-Listed (draws fuel) s (among fuel) h)
          (λ t. run_loop-Looped fuel draws t among)
      where
        go :
            (r : Polled (Serving C Duration Timer W) (Fired E))
            → Round Unit J Q r
            → ((t : Serving C Duration Timer W) → I t → Looped (run_loop parts fuel draws t cx))
            → Looped (elim r [
              | panics ↦ some panics
              | waits s' ↦ some (waits s')
              | completes (conn_ended result) s' ↦ some (completes tt s')
              | completes age_reached s' ↦ run_loop parts fuel draws (age_handler parts s') cx
              | completes signal_received s' ↦ run_loop parts fuel draws (sig_handler parts s') cx
            ])
        go panics k next = tt
        go (waits t) k next = k
        go (completes (conn_ended r) t) k next = tt
        go (completes age_reached t) k next = next (age_handler parts t) (ages t k)
        go (completes signal_received t) k next = next (sig_handler parts t) (hears t k)

    -- What the whole poll leaves when it waits.
    pub poll_serving-Listed :
        (draws : ℕ → List Branch) (s : Serving C Duration Timer W)
        → ((n : ℕ) → Listed listed (draws n))
        → I s
        → Round Unit J (λ _ _. Unit {0}) (poll_serving parts draws s cx)
    unfolding poll_serving
    poll_serving-Listed draws s among h =
        go (run_loop parts 3 draws s cx) (run_loop-Looped 3 draws s among h)
      where
        go :
            (o : Option (Polled (Serving C Duration Timer W) (Unit {0})))
            → Looped o
            → Round Unit J (λ _ _. Unit {0}) (elim o [ some r ↦ r | none ↦ panics ])
        go (some r) k = k
        go none k = tt
