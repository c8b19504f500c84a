-- ===== src/Server/Outcomes.antt =====
-- What a round of the loop of `serve_http_with_shutdown` can come to (src/http.rs).
use hyper_server.Prelude.{◌≡◌, refl, sym, none, Result}
use hyper_server.Future.{Polled, panics, waits, completes}
use hyper_server.Errors.{BoxError}
use hyper_server.Task.{Host}
use hyper_server.Server.Polls.{
  Kept, Fires, Unpolled, Still, Pauses, Yields, Kept-refl, Kept-trans, SigOutcome, IncomingOutcome,
  poll_sig-SigOutcome, poll_incoming-IncomingOutcome,
}
use hyper_server.Server.{
  First, Server, poll_sig, poll_incoming, after_incoming, spawn, shut_down, unwind, accept_round,
}

module _ (host : Host) where
  open host use {IO, Cx}

  -- The signal fires in a server that differs from this in what has been kept.
  abbrev pub FiresIn : Server host → Cx → Type 0
  FiresIn s cx = (t : Server host) × Kept host s t × Fires host t cx

  pub data Outcome (s : Server host) (cx : Cx) : Server host → Type 0 where
    goes_on : {t : Server host} → Pauses host s t → Outcome s cx t
    spawns :
        {t : Server host} (r : Result BoxError IO)
        → Yields host r s t
        → Outcome s cx (spawn host r t)
    shuts_down : {t : Server host} → FiresIn s cx → Still host s t → Outcome s cx (shut_down host t)
    unwinds : {t : Server host} → FiresIn s cx → Still host s t → Outcome s cx (unwind host t)

  -- A signal that fires was given.
  pub FiresIn-armed : {s : Server host} {cx : Cx} → FiresIn s cx → ¬ (s.sig.inner ≡ none)
  FiresIn-armed (t, k, (f, e, loud)) none_left = let n = k.unsignalled none_left in cc

  -- The polls of one round, one after the other.
  Still-Unpolled : {s t u : Server host} → Still host s t → Unpolled host t u → Still host s u
  Still-Unpolled (k, e) (l, f, g) = (Kept-trans host k l, rw f e)

  Unpolled-Pauses : {s t u : Server host} → Unpolled host s t → Pauses host t u → Pauses host s u
  Unpolled-Pauses (k, e, o) (l, f, a) =
      (Kept-trans host k l, rw (sym e) f, λ over. rw (sym e) (a (rw (e, o) over)))

  Unpolled-Yields :
      {s t u : Server host} (r : Result BoxError IO)
      → Unpolled host s t
      → Yields host r t u
      → Yields host r s u
  Unpolled-Yields r (k, e, o) (l, f, a) =
      (Kept-trans host k l, rw (sym e) f, λ over. rw (sym e) (a (rw (e, o) over)))

  Pauses-Unpolled : {s t u : Server host} → Pauses host s t → Unpolled host t u → Pauses host s u
  Pauses-Unpolled (k, e, a) (l, f, o) = (Kept-trans host k l, rw f e, λ over. rw (f, o) (a over))

  after_incoming-Outcome :
      {s t : Server host} {cx : Cx} (r : Polled (Server host) (Result BoxError IO))
      → Unpolled host s t
      → IncomingOutcome host t r
      → Outcome s cx (after_incoming host r t)
  unfolding after_incoming
  after_incoming-Outcome panics k h = absurd h
  after_incoming-Outcome (waits u) k h = goes_on (Unpolled-Pauses k h)
  after_incoming-Outcome (completes r u) k h = spawns r (Unpolled-Yields r k h)

  -- After the poll of the signal, in either order.
  after_sig-Outcome :
      {s t : Server host} {cx : Cx} (r : Polled (Server host) (Unit {0}))
      (next : Server host → Server host)
      → Still host s t
      → SigOutcome host t cx r
      → ((u : Server host) → Unpolled host t u → Outcome s cx (next u))
      → Outcome s cx (elim r [
        | panics ↦ unwind host t
        | completes u s' ↦ shut_down host s'
        | waits s' ↦ next s'
      ])
  after_sig-Outcome {t} panics next k f n = unwinds (t, k.0, f) k
  after_sig-Outcome (waits u) next k l n = n u l
  after_sig-Outcome {t} (completes v u) next k (f, l) n =
      shuts_down (t, k.0, f) (Still-Unpolled k l)

  pub accept_round-Outcome :
      (first : First) (s : Server host) (cx : Cx) → Outcome s cx (accept_round host first s cx)
  unfolding accept_round
  accept_round-Outcome First.sig_first s cx =
      after_sig-Outcome (poll_sig host s cx) (λ t. after_incoming host (poll_incoming host t) t)
        (Kept-refl host s, refl) (poll_sig-SigOutcome host s cx)
        (λ t k.
          after_incoming-Outcome (poll_incoming host t) k (poll_incoming-IncomingOutcome host t))
  accept_round-Outcome First.incoming_first s cx =
      go (poll_incoming host s) (poll_incoming-IncomingOutcome host s)
    where
      go :
          (r : Polled (Server host) (Result BoxError IO))
          → IncomingOutcome host s r
          → Outcome s cx (elim r [
            | panics ↦ unwind host s
            | completes io_result s' ↦ spawn host io_result s'
            | waits s' ↦ elim (poll_sig host s' cx) [
              | panics ↦ unwind host s'
              | completes u s'' ↦ shut_down host s''
              | waits s'' ↦ s''
            ]
          ])
      go panics h = absurd h
      go (completes r t) h = spawns r h
      go (waits t) h =
          after_sig-Outcome (poll_sig host t cx) (λ u. u) (h.0, h.1) (poll_sig-SigOutcome host t cx)
            (λ u k. goes_on (Pauses-Unpolled h k))
