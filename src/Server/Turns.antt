-- ===== src/Server/Turns.antt =====
-- The invariant over a turn of the main future of `serve_http_with_shutdown` (src/http.rs).
use hyper_server.Prelude.{◌≡◌, refl, ◌∙◌, sym, Bool, true, false, arith}
use hyper_server.Watch.{IsWatch}
use hyper_server.Task.{Host}
use hyper_server.Server.Invariant.{
  Inv, Ready, spawn-Inv, shut_down-Inv, unwind-Inv, drain_round-Inv,
}
use hyper_server.Server.Polls.{Kept}
use hyper_server.Server.Outcomes.{
  FiresIn, FiresIn-armed, Outcome, goes_on, spawns, shuts_down, unwinds, accept_round-Outcome,
}
use hyper_server.Server.{Phase, First, Server, main_in, main_turn}

module _ (host : Host) where
  -- A signal that is still polled makes the server graceful.
  pub FiresIn-graceful :
      {s : Server host} {cx : host.Cx} → FiresIn host s cx → Inv host s → s.graceful ≡ true
  FiresIn-graceful {s} a v = go s.graceful refl
    where
      go : (b : Bool) → s.graceful ≡ b → b ≡ true
      go true e = refl
      go false e = absurd (FiresIn-armed host a (v.unsignalled e))

module _ (host : Host) (laws : IsWatch host.watch) where
  open host use {Cx, watch}

  abbrev IsReady : Server host → Type 0
  IsReady = Ready host laws

  Kept-Ready : {s t : Server host} → Kept host s t → IsReady s → IsReady t
  Kept-Ready {s} {t} k (v, e) = (
    record {
      count = ground (arith, k.channel, k.tasks, k.phase, k.graceful, v.count);
      changed = ground (arith, k.channel, k.phase, v.changed);
      unsignalled = λ g. k.unsignalled (v.unsignalled (sym k.graceful ∙ g));
      open_ended = λ g. ground arith;
      emptied = λ p. ground arith;
    },
    k.phase ∙ e,
  )

  Outcome-Inv : {s t : Server host} {cx : Cx} → IsReady s → Outcome host s cx t → Inv host t
  Outcome-Inv h (goes_on (k, _, _)) = (Kept-Ready k h).0
  Outcome-Inv h (spawns {t} r (k, _, _)) = spawn-Inv host laws r t (Kept-Ready k h)
  Outcome-Inv h (shuts_down {t} a (k, _)) =
      shut_down-Inv host laws t (Kept-Ready k h) (k.graceful ∙ FiresIn-graceful host a h.0)
  Outcome-Inv h (unwinds {t} a (k, _)) =
      unwind-Inv host laws t (Kept-Ready k h) (k.graceful ∙ FiresIn-graceful host a h.0)

  pub main_turn-Inv :
      (first : First) (cx : Cx) (s : Server host)
      → Inv host s
      → Inv host (main_turn host first cx s)
  unfolding main_turn
  main_turn-Inv first cx s v = go s.phase refl
    where
      go : (p : Phase) → s.phase ≡ p → Inv host (main_in host p first s cx)
      go Phase.accepting e = Outcome-Inv (v, e) (accept_round-Outcome host first s cx)
      go Phase.draining e = drain_round-Inv host laws s v e
      go Phase.returned e = v
      go Phase.panicked e = v
      go Phase.dropped e = v
