-- ===== src/Connection/Select.antt =====
-- Rules for `select!` and the loop round it in `serve_http_connection` (src/http.rs).
use hyper_server.Prelude.{ℕ, zero, suc, ◌≡◌, refl, some, List, [], ◌∷◌}
use hyper_server.Future.{Polled, panics, waits, completes}
use hyper_server.Connection.{
  Branch, Fired, conn_ended, age_reached, signal_received, Serving, Parts, poll_branch, select,
  age_handler, sig_handler, run_loop,
}

module _ {S F : Type 0} where
  -- A round panics only if `Crash`, keeps `I` while it waits, and leaves `Q` when a branch fires.
  abbrev pub Round : Type 0 → (S → Type 0) → (F → S → Type 0) → Polled S F → Type 0
  Round Crash I Q panics = Crash
  Round Crash I Q (waits t) = I t
  Round Crash I Q (completes fired t) = Q fired t

  pub Round-map :
      {C D : Type 0} (I K : S → Type 0) (P Q : F → S → Type 0) (r : Polled S F)
      → (C → D)
      → ((t : S) → I t → K t)
      → ((f : F) (t : S) → P f t → Q f t)
      → Round C I P r
      → Round D K Q r
  Round-map I K P Q panics c i q h = c h
  Round-map I K P Q (waits t) c i q h = i t h
  Round-map I K P Q (completes f t) c i q h = q f t h

  pub Round-zip :
      (C D : Type 0) (I K : S → Type 0) (P Q : F → S → Type 0) (r : Polled S F)
      → Round C I P r
      → Round D K Q r
      → Round (C × D) (λ t. I t × K t) (λ f t. P f t × Q f t) r
  Round-zip C D I K P Q panics h k = (h, k)
  Round-zip C D I K P Q (waits t) h k = (h, k)
  Round-zip C D I K P Q (completes f t) h k = (h, k)

module _ {Cx C E Duration Timer W : Type 0} (parts : Parts Cx C E Duration Timer W) (Crash : Type 0)
    (cx : Cx) where
  -- What holds of each branch holds of `select!`, in any order of the branches.
  pub select-Round :
      (I : Serving C Duration Timer W → Type 0) (Q : Fired E → Serving C Duration Timer W → Type 0)
      → ((b : Branch) (s : Serving C Duration Timer W)
          → I s
          → Round Crash I Q (poll_branch parts b s cx))
      → (bs : List Branch) (s : Serving C Duration Timer W) → I s
      → Round Crash I Q (select parts bs s cx)
  unfolding select
  select-Round I Q branch [] s h = h
  select-Round I Q branch (b ∷ bs) s h =
      go (poll_branch parts b s cx) (branch b s h) (λ t. select-Round I Q branch bs t)
    where
      go :
          (r : Polled (Serving C Duration Timer W) (Fired E))
          → Round Crash I Q r
          → ((t : Serving C Duration Timer W) → I t → Round Crash I Q (select parts bs t cx))
          → Round Crash I Q (elim r [
            | panics ↦ panics
            | waits s' ↦ select parts bs s' cx
            | completes fired s' ↦ completes fired s'
          ])
      go panics k rest = k
      go (waits t) k rest = rest t k
      go (completes fired t) k rest = k

  module _ (I : ℕ → Serving C Duration Timer W → Type 0)
      (Done : Serving C Duration Timer W → Type 0) where
    -- After a round with `n` more allowed: the loop is left, or goes on with one fewer.
    abbrev pub Goes : ℕ → Fired E → Serving C Duration Timer W → Type 0
    Goes n (conn_ended r) t = Done t
    Goes zero age_reached t = ⊥
    Goes zero signal_received t = ⊥
    Goes (suc n) age_reached t = I n (age_handler parts t)
    Goes (suc n) signal_received t = I n (sig_handler parts t)

    abbrev pub Ends : Polled (Serving C Duration Timer W) (Unit {0}) → Type 0
    Ends panics = Crash
    Ends (waits t) = (n : ℕ) × I n t
    Ends (completes a t) = Done t

    -- A loop whose rounds keep to the bound ends within it, and `Ends` holds of what it ends with.
    pub run_loop-Ends :
        ((n : ℕ) (b : Branch) (s : Serving C Duration Timer W)
          → I n s
          → Round Crash (I n) (Goes n) (poll_branch parts b s cx))
        → (n : ℕ) (draws : ℕ → List Branch) (s : Serving C Duration Timer W) → I n s
        → (r : Polled (Serving C Duration Timer W) (Unit {0})) × (run_loop parts (suc n) draws s cx
            ≡ some r)
          × Ends r
    unfolding run_loop
    run_loop-Ends branch zero draws s h =
        go (select parts (draws 0) s cx) refl (select-Round (I 0) (Goes 0) (branch 0) (draws 0) s h)
      where
        go :
            (r : Polled (Serving C Duration Timer W) (Fired E))
            → select parts (draws 0) s cx ≡ r
            → Round Crash (I 0) (Goes 0) r
            → (r' : Polled (Serving C Duration Timer W) (Unit {0})) × (run_loop parts 1 draws s cx
                ≡ some r')
              × Ends r'
        go panics e k = (panics, rw (e, run_loop), k)
        go (waits t) e k = (waits t, rw (e, run_loop), (0, k))
        go (completes (conn_ended r) t) e k = (completes tt t, rw (e, run_loop), k)
        go (completes age_reached t) e k = absurd k
        go (completes signal_received t) e k = absurd k
    run_loop-Ends branch (suc n) draws s h =
        go (select parts (draws (suc n)) s cx) refl
          (select-Round (I (suc n)) (Goes (suc n)) (branch (suc n)) (draws (suc n)) s h)
          (run_loop-Ends branch n draws)
      where
        go :
            (r : Polled (Serving C Duration Timer W) (Fired E))
            → select parts (draws (suc n)) s cx ≡ r
            → Round Crash (I (suc n)) (Goes (suc n)) r
            → ((t : Serving C Duration Timer W)
                → I n t
                → (r' : Polled (Serving C Duration Timer W) (Unit {0})) × (run_loop parts
                      (suc n)
                      draws
                      t
                      cx
                    ≡ some r')
                  × Ends r')
            → (r' : Polled (Serving C Duration Timer W) (Unit {0})) × (run_loop parts
                  (suc (suc n))
                  draws
                  s
                  cx
                ≡ some r')
              × Ends r'
        go panics e k next = (panics, rw (e, run_loop), k)
        go (waits t) e k next = (waits t, rw (e, run_loop), (suc n, k))
        go (completes (conn_ended r) t) e k next = (completes tt t, rw (e, run_loop), k)
        go (completes age_reached t) e k next =
            let (r, eq, b) = next (age_handler parts t) k in (r, rw (e, run_loop) eq, b)
        go (completes signal_received t) e k next =
            let (r, eq, b) = next (sig_handler parts t) k in (r, rw (e, run_loop) eq, b)
