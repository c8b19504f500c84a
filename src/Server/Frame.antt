-- ===== src/Server/Frame.antt =====
-- What no turn of `serve_http_with_shutdown` changes (src/http.rs).
use hyper_server.Prelude.{ℕ, ◌≡◌, refl, Bool, true, false, List, [], ◌∷◌, ◌++◌, arith}
use hyper_server.Server.Invariant.{is_sent}
use hyper_server.Server.{
  Phase, First, Server, Turn, main_turn, task_turn, turn, run, drop_in, drop_main,
}
use hyper_server.Connection.{Branch}
use hyper_server.Task.{Host}

abbrev pub is_dropped : Phase → Bool
is_dropped Phase.dropped = true
is_dropped _ = false

module _ (host : Host) where
  pub graceful-main_turn :
      (first : First) (cx : host.Cx) (s : Server host)
      → (main_turn host first cx s).graceful ≡ s.graceful
  unfolding main_turn
  graceful-main_turn First.sig_first cx s = ground arith
  graceful-main_turn First.incoming_first cx s = ground arith

  pub graceful-task_turn :
      (i : ℕ) (draws : ℕ → List Branch) (cx : host.Cx) (s : Server host)
      → (task_turn host i draws cx s).graceful ≡ s.graceful
  unfolding task_turn
  graceful-task_turn i draws cx s = refl

  pub phase-task_turn :
      (i : ℕ) (draws : ℕ → List Branch) (cx : host.Cx) (s : Server host)
      → (task_turn host i draws cx s).phase ≡ s.phase
  unfolding task_turn
  phase-task_turn i draws cx s = refl

  pub graceful-drop_main : (s : Server host) → (drop_main host s).graceful ≡ s.graceful
  unfolding drop_main drop_in
  graceful-drop_main s = ground arith

  pub tasks-drop_main : (s : Server host) → (drop_main host s).tasks ≡ s.tasks
  unfolding drop_main drop_in
  tasks-drop_main s = ground arith

  pub is_sent-drop_main : (s : Server host) → is_sent (drop_main host s).phase ≡ true
  unfolding drop_main drop_in
  is_sent-drop_main s = ground arith

  -- Only its caller drops the main future.
  pub is_dropped-main_turn :
      (first : First) (cx : host.Cx) (s : Server host)
      → is_dropped (main_turn host first cx s).phase ≡ is_dropped s.phase
  unfolding main_turn
  is_dropped-main_turn First.sig_first cx s = ground arith
  is_dropped-main_turn First.incoming_first cx s = ground arith

  pub run-append :
      (ts us : List (Turn host)) (s : Server host)
      → run host (ts ++ us) s ≡ run host us (run host ts s)
  unfolding run
  run-append [] us s = refl
  run-append (t ∷ ts) us s = run-append ts us (turn host t s)
