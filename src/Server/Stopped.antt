-- ===== src/Server/Stopped.antt =====
-- The tasks once the main future has left its loop (src/http.rs).
use hyper_server.Prelude.{
  ◌≡◌, refl, ap, ◌∙◌, ◌⊎◌, inl, inr, Bool, true, false, if◌then◌else◌, Option, List, [], ◌∷◌,
  Result, length, arith,
}
use hyper_server.Stream.{Arrival}
use hyper_server.Task.{Host}
use hyper_server.Watch.{IsWatch}
use hyper_server.Server.Invariant.{is_sent, total_live, Inv}
use hyper_server.Server.Shutdown.{draining-Inv, main_turn-draining}
use hyper_server.Server.Spawning.{length-poll_at}
use hyper_server.Server.{
  Phase, First, Server, Turn, main, task, start, main_turn, main_in, drain_round, poll_unfinished,
  task_turn, turn, run,
}

module _ (host : Host) where
  open host use {IO, IE, Cx, Signal, watch}

  -- The phases after the accept loop.
  abbrev pub HasLeft : Server host → Type 0
  HasLeft s = is_sent s.phase ≡ true

  abbrev pub Drains : Server host → Type 0
  Drains s = (s.phase ≡ Phase.draining) ⊎ (s.phase ≡ Phase.returned)

  -- What a turn of the main future leaves as it was.
  abbrev pub Left : Server host → Server host → Type 0
  Left s s' = (HasLeft s' × (s'.tasks ≡ s.tasks)) × (Drains s → Drains s')

  drain_round-Left : (s : Server host) → s.phase ≡ Phase.draining → Left s (drain_round host s)
  unfolding drain_round
  drain_round-Left s e = go (watch.is_closed s.channel)
    where
      go :
          (b : Bool)
          → Left s (
              if b
              then record s { channel = watch.drop_sender s.channel; phase = Phase.returned }
              else s)
      go true = ((refl, refl), λ d. inr refl)
      go false = ((ground arith, refl), λ d. d)

  pub main_turn-Left :
      (first : First) (cx : Cx) (s : Server host) → HasLeft s → Left s (main_turn host first cx s)
  unfolding main_turn main_in
  main_turn-Left first cx s h = go s.phase refl
    where
      go : (p : Phase) → s.phase ≡ p → Left s (main_in host p first s cx)
      go Phase.accepting e = ground arith
      go Phase.draining e = drain_round-Left s e
      go Phase.returned e = ((h, refl), λ d. d)
      go Phase.panicked e = ((h, refl), λ d. d)
      go Phase.dropped e = ((h, refl), λ d. d)

  pub main_turn-HasLeft :
      (first : First) (cx : Cx) (s : Server host)
      → HasLeft s
      → HasLeft (main_turn host first cx s) × ((main_turn host first cx s).tasks ≡ s.tasks)
  main_turn-HasLeft first cx s h = (main_turn-Left first cx s h).0

  pub run-Left :
      (ts : List (Turn host)) (s : Server host)
      → HasLeft s
      → Drains s
      → Drains (run host ts s) × (length (run host ts s).tasks ≡ length s.tasks)
  unfolding run turn task_turn
  run-Left [] s h d = (d, refl)
  run-Left (main first cx ∷ ts) s h d =
      let ((h', e), d') = main_turn-Left first cx s h in
      let (d'', e') = run-Left ts (main_turn host first cx s) h' (d' d) in
      (d'', e' ∙ ap (λ l. length l) e)
  run-Left (task i draws cx ∷ ts) s h d =
      let (d', e) = run-Left ts (task_turn host i draws cx s) h d in
      (d', e ∙ length-poll_at host (poll_unfinished host s draws cx) i s.tasks)

  pub returned_stays :
      (first : First) (cx : Cx) (s : Server host)
      → s.phase ≡ Phase.returned
      → (main_turn host first cx s).phase ≡ Phase.returned
  unfolding main_turn main_in
  returned_stays first cx s e = ground (arith, e)

  -- A turn of the main future after the loop returns if no task is left.
  pub last_turn :
      IsWatch watch
      → (first : First) (cx : Cx) (s : Server host) → Inv host s
      → Drains s
      → total_live s.tasks ≡ 0
      → (main_turn host first cx s).phase ≡ Phase.returned
  last_turn laws first cx s v (inl e) z =
      (main_turn-draining host laws first cx s e).1 (draining-Inv host laws s v e ∙ z)
  last_turn laws first cx s v (inr e) z = returned_stays first cx s e

  -- From the moment that the main future drains, every execution leaves it draining or returned, and
  -- with as many tasks: no connection is accepted after the signal.
  pub accepts_none_after_signal :
      (signal : Option Signal) (tls : Bool) (incoming : List (Arrival (Result IE IO)))
      (before after : List (Turn host))
      → (run host before (start host signal tls incoming)).phase ≡ Phase.draining
      → (((run host after (run host before (start host signal tls incoming))).phase
            ≡ Phase.draining)
          ⊎ ((run host after (run host before (start host signal tls incoming))).phase
              ≡ Phase.returned))
        × (length (run host after (run host before (start host signal tls incoming))).tasks
            ≡ length (run host before (start host signal tls incoming)).tasks)
  accepts_none_after_signal signal tls incoming before after e =
      run-Left after (run host before (start host signal tls incoming)) (ground arith) (inl e)
