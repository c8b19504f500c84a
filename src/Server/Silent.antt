-- ===== src/Server/Silent.antt =====
-- The accept loop of `serve_http_with_shutdown` while the signal waits (src/http.rs).
use hyper_server.Prelude.{◌≡◌, ◌∙◌}
use hyper_server.Future.{waits}
use hyper_server.Task.{Host}
use hyper_server.Server.Outcomes.{
  Outcome, goes_on, spawns, shuts_down, unwinds, accept_round-Outcome,
}
use hyper_server.Server.{Phase, First, Server, spawn, main_in, main_turn}

module _ (host : Host) where
  open host use {Cx, Signal}

  -- A poll of the signal waits.
  abbrev Waits : Cx → Type 0
  Waits cx = (f : Signal) → (f' : Signal) × (host.signal.poll f cx ≡ waits f')

  Outcome-accepting :
      {s t : Server host} {cx : Cx}
      → Waits cx
      → s.phase ≡ Phase.accepting
      → Outcome host s cx t
      → t.phase ≡ Phase.accepting
  unfolding spawn
  Outcome-accepting w e (goes_on (k, _, _)) = k.phase ∙ e
  Outcome-accepting w e (spawns r (k, _, _)) = k.phase ∙ e
  Outcome-accepting w e (shuts_down (t, k', (f, n, loud)) (k, _)) =
      let (f', q) = w f in absurd (loud f' q)
  Outcome-accepting w e (unwinds (t, k', (f, n, loud)) (k, _)) =
      let (f', q) = w f in absurd (loud f' q)

  pub main_turn-waiting :
      (first : First) (cx : Cx) (s : Server host)
      → Waits cx
      → s.phase ≡ Phase.accepting
      → (main_turn host first cx s).phase ≡ Phase.accepting
  unfolding main_turn
  main_turn-waiting first cx s w e = go s.phase e
    where
      go : (p : Phase) → p ≡ Phase.accepting → (main_in host p first s cx).phase ≡ Phase.accepting
      go Phase.accepting q = Outcome-accepting w e (accept_round-Outcome host first s cx)
      go Phase.draining q = cc
      go Phase.returned q = cc
      go Phase.panicked q = cc
      go Phase.dropped q = cc
