-- ===== src/Server/Follows.antt =====
-- The turns of `serve_http_with_shutdown` and its tasks as moves of the diagram (src/http.rs).
use mathlib.Core.Path.{subst}
use hyper_server.Prelude.{
  ℕ, suc, ◌≡◌, refl, sym, ◌∙◌, ap, ◌⊎◌, inl, inr, Bool, true, false, if◌then◌else◌, List, [], ◌∷◌,
  Result, arith,
}
use hyper_server.Errors.{BoxError}
use hyper_server.Connection.{Branch}
use hyper_server.Watch.{IsWatch}
use hyper_server.Task.{Host, spawned}
use hyper_server.Server.Invariant.{total_live, total_live-append, Inv}
use hyper_server.Server.Diagram.{
  View, Actor, by_main, by_task, by_caller, Step, Move, connect, leave, shut, finish, crash, stop,
  abandon, Reach, next, placed,
}
use hyper_server.Server.Frame.{phase-task_turn}
use hyper_server.Server.Tasks.{total_live-task_turn}
use hyper_server.Server.Shutdown.{draining-Inv}
use hyper_server.Server.Turns.{FiresIn-graceful}
use hyper_server.Server.Polls.{Kept}
use hyper_server.Server.Outcomes.{
  Outcome, goes_on, spawns, shuts_down, unwinds, accept_round-Outcome,
}
use hyper_server.Server.{
  Phase, First, Server, main_turn, main_in, drop_in, drop_main, drain_round, shut_down, spawn,
  unwind, task_turn,
}

module _ (host : Host) where
  open host use {IO, IE, Cx, Signal, watch}

  abbrev pub view : Server host → View
  view s = (s.phase, total_live s.tasks)

  abbrev pub Follows : Actor → Server host → Server host → Type 0
  Follows a s s' = Step s.graceful a (view s) (view s')

  total_live-spawn :
      (r : Result BoxError IO) (s : Server host)
      → total_live (spawn host r s).tasks ≡ suc (total_live s.tasks)
  unfolding spawn
  total_live-spawn r s = omega (arith, total_live-append s.tasks (spawned r ∷ []))

  Kept-total_live : {s t : Server host} → Kept host s t → total_live t.tasks ≡ total_live s.tasks
  Kept-total_live k = ap total_live k.tasks

  Kept-view : {s t : Server host} → Kept host s t → view t ≡ view s
  Kept-view k = cc

  spawn-phase : (r : Result BoxError IO) (s : Server host) → (spawn host r s).phase ≡ s.phase
  unfolding spawn
  spawn-phase r s = refl

  shut_down-view :
      (s : Server host)
      → s.graceful ≡ true
      → ((shut_down host s).phase ≡ Phase.draining) × ((shut_down host s).tasks ≡ s.tasks)
  unfolding shut_down
  shut_down-view s g = ground arith

  Outcome-Follows :
      {s t : Server host} {cx : Cx}
      → Inv host s
      → s.phase ≡ Phase.accepting
      → Outcome host s cx t
      → Follows by_main s t
  unfolding unwind
  Outcome-Follows v e (goes_on (k, _, _)) = inl (Kept-view k)
  Outcome-Follows v e (spawns {t} r (k, _, _)) = inr (
      placed e refl (spawn-phase r t ∙ k.phase ∙ e)
        (total_live-spawn r t ∙ ap suc (Kept-total_live k)) (connect _))
  Outcome-Follows v e (shuts_down {t} a (k, _)) =
      let (p, ts) = shut_down-view t (k.graceful ∙ FiresIn-graceful host a v) in
      inr (
        placed e refl p (ap total_live ts ∙ Kept-total_live k) (shut (FiresIn-graceful host a v) _))
  Outcome-Follows v e (unwinds {t} a (k, _)) =
      inr (placed e refl refl (Kept-total_live k) (crash (FiresIn-graceful host a v) _))

  drain_round-Follows :
      IsWatch watch
      → (s : Server host) → Inv host s
      → s.phase ≡ Phase.draining
      → Follows by_main s (drain_round host s)
  unfolding drain_round
  drain_round-Follows laws s v e = go (watch.is_closed s.channel) refl
    where
      go :
          (b : Bool)
          → watch.is_closed s.channel ≡ b
          → Follows by_main s (
              if b
              then record s { channel = watch.drop_sender s.channel; phase = Phase.returned }
              else s)
      go true c = inr (placed e none_live refl none_live finish)
        where
          none_live : total_live s.tasks ≡ 0
          none_live = sym (draining-Inv host laws s v e) ∙ (laws.closed_iff s.channel).0 c
      go false c = inl refl

  pub main_turn-Follows :
      IsWatch watch
      → (first : First) (cx : Cx) (s : Server host) → Inv host s
      → Follows by_main s (main_turn host first cx s)
  unfolding main_turn
  main_turn-Follows laws first cx s v = go s.phase refl
    where
      go : (p : Phase) → s.phase ≡ p → Follows by_main s (main_in host p first s cx)
      go Phase.accepting e = Outcome-Follows v e (accept_round-Outcome host first s cx)
      go Phase.draining e = drain_round-Follows laws s v e
      go Phase.returned e = inl refl
      go Phase.panicked e = inl refl
      go Phase.dropped e = inl refl

  pub task_turn-Follows :
      (i : ℕ) (draws : ℕ → List Branch) (cx : Cx) (s : Server host)
      → Follows by_task s (task_turn host i draws cx s)
  task_turn-Follows i draws cx s = go (total_live-task_turn host i draws cx s)
    where
      go :
          (total_live (task_turn host i draws cx s).tasks ≡ total_live s.tasks)
            ⊎ (total_live s.tasks ≡ suc (total_live (task_turn host i draws cx s).tasks))
          → Follows by_task s (task_turn host i draws cx s)
      go (inl e) = let q = phase-task_turn host i draws cx s in inl cc
      go (inr e) = inr (placed refl e (phase-task_turn host i draws cx s) refl (leave s.phase _))

  pub drop_main-Follows : (s : Server host) → Follows by_caller s (drop_main host s)
  unfolding drop_main drop_in
  drop_main-Follows s = go s.phase refl
    where
      go : (p : Phase) → s.phase ≡ p → Follows by_caller s (drop_in host p s)
      go Phase.accepting e = inr (placed e refl refl refl (stop _))
      go Phase.draining e = inr (placed e refl refl refl (abandon _))
      go Phase.returned e = inl refl
      go Phase.panicked e = inl refl
      go Phase.dropped e = inl refl

  -- A step of the server is none or one of the diagram.
  pub followed :
      {g : Bool} {a : Actor} {v : View} (s s' : Server host)
      → s.graceful ≡ g
      → Follows a s s'
      → Reach g v (view s)
      → Reach g v (view s')
  followed {g} {v = v} s s' e (inl q) r = subst (Reach g v) (sym q) r
  followed {a = a} s s' e (inr m) r = next r (subst (λ b. Move b a (view s) (view s')) e m)
