-- ===== src/Connection/Aging.antt =====
-- A connection that reaches its greatest age in `serve_http_connection` (src/http.rs).
use hyper_server.Prelude.{
  ℕ, zero, suc, ◌+◌, ◌≤◌, ◌<◌, ◌≡◌, refl, Option, none, some, List, [], ◌∷◌, length, All, Result,
  arith, ◌⊎◌, inl, inr,
}
use hyper_server.Future.{Polled, panics, waits, completes, map_polled, Finishes}
use hyper_server.Fuse.{poll_fuse}
use hyper_server.Connection.Select.{Round}
use hyper_server.Connection.Listed.{Listed, poll_serving-Listed}
use hyper_server.Connection.Closing.{Closes}
use hyper_server.Connection.ServedOut.{
  Drawn, Asks, rest_of, still_served, closing_connection_is_served_out,
}
use hyper_server.Connection.{
  SleepOrPending, created, sleeping, pending_for_ever, returned, Branch, conn_branch, sleep_branch,
  sig_branch, Fired, conn_ended, age_reached, signal_received, Serving, Parts, after_timer,
  poll_sleep, poll_branch, age_handler, sig_handler, poll_serving, start_serving,
}

module _ {Cx C E Duration Timer W : Type 0} (parts : Parts Cx C E Duration Timer W) where
  -- The branches of the connection and of the age are both polled in each `select!`.
  abbrev pub AsksBoth : Drawn parts → Type 0
  AsksBoth (cx, draws) = Asks parts (cx, draws) × ((i : ℕ) → Listed sleep_branch (draws i))

  All-Asks : (polls : List (Drawn parts)) → All AsksBoth polls → All (Asks parts) polls
  All-Asks [] h = tt
  All-Asks ((cx, draws) ∷ polls) h = (h.0.0, All-Asks polls h.1)

module _ {Cx C E Duration Timer W : Type 0} (parts : Parts Cx C E Duration Timer W)
    (lasts : Duration → ℕ) where
  -- A timer that is started fires after as many polls that are not ready as its duration lasts.
  abbrev pub Fires : Type 0
  Fires = (d : Duration) (cx : Cx) → Finishes parts.timer (lasts d) (parts.start_sleep d cx) tt

module _ {Cx C E Duration Timer W : Type 0} (parts : Parts Cx C E Duration Timer W)
    (Closing : C → Type 0) (left : C → ℕ) (lasts : Duration → ℕ) where
  -- The sleep fires after at most so many polls that are not ready.
  abbrev Due : ℕ → SleepOrPending Duration Timer → Type 0
  Due n (created (some wait)) = lasts wait ≤ n
  Due n (sleeping t) = (m : ℕ) × (m ≤ n) × Finishes parts.timer m t tt
  Due n _ = ⊥

  -- So many polls of the sleep at most, and the connection is closing.
  abbrev Aged : ℕ → Serving C Duration Timer W → Type 0
  Aged zero s = Closing s.conn
  Aged (suc n) s = Due n s.sleep ⊎ Closing s.conn

  closing-Aged : (n : ℕ) (s : Serving C Duration Timer W) → Closing s.conn → Aged n s
  closing-Aged zero s c = c
  closing-Aged (suc n) s c = inr c

  module _ (closes : Closes parts Closing left) (fires : Fires parts lasts) (cx : Cx) where
    abbrev Ages : ℕ → Polled (Serving C Duration Timer W) (Fired E) → Type 0
    Ages n = Round Unit (Aged n) (λ _ _. Unit {0})

    conn_branch-Ages :
        (n : ℕ) (s : Serving C Duration Timer W)
        → Aged n s
        → Ages n (poll_branch parts conn_branch s cx)
    unfolding poll_branch
    conn_branch-Ages n s h = go n (parts.connection.poll s.conn cx) (closes.on_poll s.conn cx) h
      where
        go :
            (n' : ℕ) (r : Polled C (Result E (Unit {0})))
            → (Closing s.conn
                → Round Unit (λ c'. Closing c' × (left c' < left s.conn)) (λ _ _. Unit {0}) r)
            → Aged n' s
            → Ages n' (map_polled (λ c. record s { conn = c }) conn_ended r)
        go n' panics k a = tt
        go n' (completes r c) k a = tt
        go zero (waits c) k a = (k a).0
        go (suc n') (waits c) k (inl d) = inl d
        go (suc n') (waits c) k (inr c') = inr (k c').0

    sig_branch-Ages :
        (n : ℕ) (s : Serving C Duration Timer W)
        → Aged n s
        → Ages n (poll_branch parts sig_branch s cx)
    unfolding poll_branch
    sig_branch-Ages n s h = go n (poll_fuse parts.changed s.sig cx) h
      where
        go :
            (n' : ℕ) (r : Polled _ (Unit {0}))
            → Aged n' s
            → Ages n' (map_polled (λ g. record s { sig = g }) (λ _. signal_received) r)
        go n' panics a = tt
        go n' (completes u g) a = tt
        go zero (waits g) a = a
        go (suc n') (waits g) a = a

    closing_sleep-Ages :
        (n : ℕ) (s : Serving C Duration Timer W)
        → Closing s.conn
        → Ages n (poll_branch parts sleep_branch s cx)
    unfolding poll_branch
    closing_sleep-Ages n s c = go (poll_sleep parts s.sleep cx)
      where
        go :
            (r : Polled _ (Unit {0}))
            → Ages n (map_polled (λ z. record s { sleep = z }) (λ _. age_reached) r)
        go panics = tt
        go (completes u z) = tt
        go (waits z) = closing-Aged n (record s { sleep = z }) c

    -- A poll of a timer that is due takes one from its polls, or it fires.
    timer-Ages :
        (n m : ℕ) (s : Serving C Duration Timer W) (t : Timer)
        → m ≤ n
        → Finishes parts.timer m t tt
        → Ages n (
            map_polled {B = Fired E}
              (λ z. record s { sleep = z })
              (λ _. age_reached)
              (after_timer parts (parts.timer.poll t cx)))
    unfolding after_timer
    timer-Ages n zero s t h finishes = let (t', e) = finishes cx in rw e tt
    timer-Ages zero (suc m) s t h finishes = absurd (omega (arith, h))
    timer-Ages (suc n) (suc m) s t h finishes =
        let (t', e, rest) = finishes cx in rw e (inl (m, omega (arith, h), rest))

    sleep_branch-Ages :
        (n : ℕ) (s : Serving C Duration Timer W)
        → Aged (suc n) s
        → Ages n (poll_branch parts sleep_branch s cx)
    unfolding poll_branch poll_sleep
    sleep_branch-Ages n s (inr c) = closing_sleep-Ages n s c
    sleep_branch-Ages n s (inl due) = go s.sleep due
      where
        go :
            (z : SleepOrPending Duration Timer)
            → Due n z
            → Ages n (
                map_polled {B = Fired E}
                  (λ y. record s { sleep = y })
                  (λ _. age_reached)
                  (poll_sleep parts z cx))
        go (created (some wait)) d =
            timer-Ages n (lasts wait) s (parts.start_sleep wait cx) d (fires wait cx)
        go (created none) d = absurd d
        go (sleeping t) (m, d, finishes) = timer-Ages n m s t d finishes
        go pending_for_ever d = absurd d
        go returned d = absurd d

    Ages-weaken :
        (n : ℕ) (r : Polled (Serving C Duration Timer W) (Fired E)) → Ages n r → Ages (suc n) r
    Ages-weaken n panics h = tt
    Ages-weaken n (completes f t) h = tt
    Ages-weaken zero (waits t) h = inr h
    Ages-weaken (suc n) (waits t) (inr c) = inr c
    Ages-weaken (suc n) (waits t) (inl d) = inl (go t.sleep d)
      where
        go : (z : SleepOrPending Duration Timer) → Due n z → Due (suc n) z
        go (created (some wait)) d' = omega (arith, d')
        go (created none) d' = absurd d'
        go (sleeping u) (m, d', finishes) = (m, omega (arith, d'), finishes)
        go pending_for_ever d' = absurd d'
        go returned d' = absurd d'

    branch-Ages :
        (n : ℕ) (b : Branch) (s : Serving C Duration Timer W)
        → Aged n s
        → Ages n (poll_branch parts b s cx)
    branch-Ages n conn_branch s h = conn_branch-Ages n s h
    branch-Ages n sig_branch s h = sig_branch-Ages n s h
    branch-Ages zero sleep_branch s h = closing_sleep-Ages zero s h
    branch-Ages (suc n) sleep_branch s h = Ages-weaken n _ (sleep_branch-Ages n s h)

    -- A poll in which the sleep is polled brings the age nearer by one.
    poll_serving-Ages :
        (n : ℕ) (draws : ℕ → List Branch) (s : Serving C Duration Timer W)
        → ((i : ℕ) → Listed sleep_branch (draws i))
        → Aged (suc n) s
        → Round Unit (Aged n) (λ _ _. Unit {0}) (poll_serving parts draws s cx)
    unfolding age_handler sig_handler
    poll_serving-Ages n =
        poll_serving-Listed parts cx sleep_branch (Aged (suc n)) (Aged n) (λ _ _. Unit)
          (sleep_branch-Ages n) (branch-Ages (suc n)) (branch-Ages n)
          (λ t u. inr (closes.on_shutdown t.conn)) (λ t u. inr (closes.on_shutdown t.conn))

  module _ (closes : Closes parts Closing left) (fires : Fires parts lasts) (most : ℕ)
      (bounded : (c : C) → Closing c → left c ≤ most) where
    served_out-Aged :
        (polls : List (Drawn parts)) (n : ℕ) (s : Serving C Duration Timer W)
        → All (AsksBoth parts) polls
        → Aged n s
        → n + most < length polls
        → still_served parts polls s ≡ none
    unfolding still_served
    served_out-Aged polls zero s asks h fits =
        closing_connection_is_served_out parts Closing left closes polls s h
          (All-Asks parts polls asks) (omega (arith, bounded s.conn h))
    served_out-Aged [] (suc n) s asks h fits = absurd (omega (arith, fits))
    served_out-Aged ((cx, draws) ∷ polls) (suc n) s asks h fits =
        go (poll_serving parts draws s cx) (poll_serving-Ages closes fires cx n draws s asks.0.1 h)
          (λ t k. served_out-Aged polls n t asks.1 k (omega arith))
      where
        go :
            (r : Polled (Serving C Duration Timer W) (Unit {0}))
            → Round Unit (Aged n) (λ _ _. Unit {0}) r
            → ((t : Serving C Duration Timer W) → Aged n t → still_served parts polls t ≡ none)
            → rest_of parts r (still_served parts polls) ≡ none
        go panics k next = refl
        go (waits t) k next = next t k
        go (completes a t) k next = refl

    -- If hyper closes connections that are asked to within `most` polls, and the timer fires when it has
    -- lasted: `serve_http_connection` with a greatest age has ended two polls after the age and what
    -- hyper may need, whatever its client and its watcher do, in whatever order the branches are
    -- polled, if those of the connection and of the age are among them each time.
    pub aged_connection_ends :
        {R : Type 0} (changed_of : R → W) (conn : C) (watcher : Option R) (age : Duration)
        (polls : List (Drawn parts))
        → All (AsksBoth parts) polls
        → lasts age + most + 2 ≤ length polls
        → still_served parts polls (start_serving changed_of conn watcher (some age)) ≡ none
    unfolding start_serving
    aged_connection_ends changed_of conn watcher age polls asks fits =
        served_out-Aged polls (suc (lasts age)) (start_serving changed_of conn watcher (some age))
          asks (inl (omega arith)) (omega arith)
