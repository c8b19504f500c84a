-- ===== src/Lifecycle/Joining.antt =====
-- `server.await` in `main` of the examples (examples/tower_service_fn.rs, examples/tonic.rs).
use mathlib.Core.Path.{subst}
use hyper_server.Prelude.{
  ℕ, ◌≡◌, refl, sym, ap, ◌∙◌, ◌⊎◌, inl, inr, arith, true, if◌then◌else◌, ok, List, [], ◌∷◌,
}
use hyper_server.Connection.{Branch}
use hyper_server.Task.{Host}
use hyper_server.Server.Stopped.{Drains, HasLeft, main_turn-Left}
use hyper_server.Server.{Phase, First, Server, Turn, turn, run, main_turn, task_turn}
use hyper_server.Lifecycle.Ends.{turns_of}
use hyper_server.Lifecycle.{
  Ending, interrupted_by, joining, ended, unwound, Outside, Example, join, poll_main, Step,
  main_poll, server_poll, task_poll, step_in, step, steps, is_over,
}

module _ (host : Host) (outside : Outside host) where
  open host use {IO, IE, Signal}
  open outside use {Interrupt, E, Cx, context}

  -- The turns of the server in steps that come after the interrupt.
  abbrev pub turns_after : List (Step host outside) → List (Turn host)
  turns_after [] = []
  turns_after (st ∷ sts) = turns_of host outside true st (turns_after sts)

  -- `main` waits for the server's task.
  abbrev pub Joins : Example host outside → Type 0
  Joins p = (p.ending ≡ joining) × (p.sent ≡ true) × Drains host p.server

  abbrev pub IsDone : Example host outside → Type 0
  IsDone p = p.ending ≡ ended (ok tt)

  Drains-HasLeft : (s : Server host) → Drains host s → HasLeft host s
  Drains-HasLeft s (inl e) = ground arith
  Drains-HasLeft s (inr e) = ground arith

  Drains-task_turn :
      (i : ℕ) (draws : ℕ → List Branch) (cx : host.Cx) (s : Server host)
      → Drains host s
      → Drains host (task_turn host i draws cx s)
  unfolding task_turn
  Drains-task_turn i draws cx s d = d

  join-Drains :
      (p : Phase)
      → (p ≡ Phase.draining) ⊎ (p ≡ Phase.returned)
      → (join host outside p ≡ ended (ok tt)) ⊎ (join host outside p ≡ joining)
  unfolding join
  join-Drains p (inl e) = rw e (inr refl)
  join-Drains p (inr e) = rw e (inl refl)

  step_of_joining :
      (st : Step host outside) (p : Example host outside)
      → p.ending ≡ joining
      → step host outside st p ≡ step_in host outside st p
  unfolding step
  step_of_joining st p e = rw e refl

  poll_main-Joins :
      (cx : Cx) (p : Example host outside)
      → Joins p
      → (poll_main host outside p.ending cx p).server ≡ p.server
        × (IsDone (poll_main host outside p.ending cx p)
            ⊎ Joins (poll_main host outside p.ending cx p))
  unfolding poll_main
  poll_main-Joins cx p (e, sent, d) = go p.ending e
    where
      joined :
          (q : Ending Interrupt E)
          → (q ≡ ended (ok tt)) ⊎ (q ≡ joining)
          → IsDone (record p { ending = q }) ⊎ Joins (record p { ending = q })
      joined q (inl f) = inl f
      joined q (inr f) = inr (f, sent, d)

      go :
          (q : Ending Interrupt E)
          → q ≡ joining
          → (poll_main host outside q cx p).server ≡ p.server
            × (IsDone (poll_main host outside q cx p) ⊎ Joins (poll_main host outside q cx p))
      go (interrupted_by i) f = cc
      go joining f = (refl, joined _ (join-Drains p.server.phase d))
      go (ended r) f = cc
      go unwound f = cc

  step_in-Joins :
      (st : Step host outside) (p : Example host outside)
      → Joins p
      → IsDone (step_in host outside st p) ⊎ Joins (step_in host outside st p)
  unfolding step_in
  step_in-Joins (main_poll cx) p h = (poll_main-Joins cx p h).1
  step_in-Joins (server_poll first cx) p (e, sent, d) = inr (
    e,
    sent,
    (main_turn-Left host first (context p.sent cx) p.server (Drains-HasLeft p.server d)).1 d,
  )
  step_in-Joins (task_poll i draws cx) p (e, sent, d) =
      inr (e, sent, Drains-task_turn i draws (context p.sent cx) p.server d)

  run-turns_of :
      (st : Step host outside) (ts : List (Turn host)) (p : Example host outside)
      → Joins p
      → run host ts (step_in host outside st p).server
        ≡ run host (turns_of host outside true st ts) p.server
  unfolding step_in run turn
  run-turns_of (main_poll cx) ts p h = ap (run host ts) (poll_main-Joins cx p h).0
  run-turns_of (server_poll first cx) ts p (e, sent, d) =
      ap (λ b. run host ts (main_turn host first (context b cx) p.server)) sent
  run-turns_of (task_poll i draws cx) ts p (e, sent, d) =
      ap (λ b. run host ts (task_turn host i draws (context b cx) p.server)) sent

  pub steps-IsDone :
      (sts : List (Step host outside)) (p : Example host outside)
      → IsDone p
      → IsDone (steps host outside sts p)
  unfolding steps step
  steps-IsDone [] p e = e
  steps-IsDone (st ∷ sts) p e =
      steps-IsDone sts (step host outside st p)
        (subst (λ b. IsDone (if b then p else step_in host outside st p)) (sym (ap is_over e)) e)

  pub steps-Joins :
      (sts : List (Step host outside)) (p : Example host outside)
      → Joins p
      → IsDone (steps host outside sts p)
        ⊎ (Joins (steps host outside sts p)
            × ((steps host outside sts p).server ≡ run host (turns_after sts) p.server))
  unfolding steps run
  steps-Joins [] p h = inr (h, refl)
  steps-Joins (st ∷ sts) p h =
      subst
        (λ q.
          IsDone (steps host outside sts q)
          ⊎ (Joins (steps host outside sts q)
              × ((steps host outside sts q).server
                  ≡ run host (turns_of host outside true st (turns_after sts)) p.server)))
        (sym (step_of_joining st p h.0))
        (elim (step_in-Joins st p h) [
          | inl d ↦ inl (steps-IsDone sts (step_in host outside st p) d)
          | inr k ↦ elim (steps-Joins sts (step_in host outside st p) k) [
            | inl d ↦ inl d
            | inr (l, e) ↦ inr (l, e ∙ run-turns_of st (turns_after sts) p h)
          ]
        ])

  -- The server's task has returned: the next poll of `main` does.
  main_poll-IsDone :
      (cx : Cx) (p : Example host outside)
      → Joins p
      → p.server.phase ≡ Phase.returned
      → IsDone (step host outside (main_poll cx) p)
  unfolding step_in poll_main join
  main_poll-IsDone cx p (e, sent, d) r = subst IsDone (sym (step_of_joining (main_poll cx) p e)) (
      subst (λ x. IsDone (poll_main host outside x cx p)) (sym e)
        (subst (λ x. join host outside x ≡ ended (ok tt)) (sym r) refl))

  -- The last turn of the server, and the poll of `main` that sees it.
  pub last_polls :
      (first : First) (server_cx main_cx : Cx) (p : Example host outside)
      → Joins p
      → (main_turn host first (context p.sent server_cx) p.server).phase ≡ Phase.returned
      → IsDone (steps host outside (server_poll first server_cx ∷ main_poll main_cx ∷ []) p)
  unfolding steps step_in
  last_polls first server_cx main_cx p (e, sent, d) r =
      subst (λ q. IsDone (step host outside (main_poll main_cx) q))
        (sym (step_of_joining (server_poll first server_cx) p e))
        (main_poll-IsDone main_cx
          (record p { server = main_turn host first (context p.sent server_cx) p.server })
          (e, sent, inr r) r)
