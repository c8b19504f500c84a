-- ===== src/Lifecycle/Ends.antt =====
-- When `main` of the examples ends (examples/tower_service_fn.rs, examples/tonic.rs).
use mathlib.Core.Path.{subst}
use hyper_server.Prelude.{
  ◌≡◌, refl, sym, ap, ◌∙◌, arith, ◌++◌, Bool, true, false, if◌then◌else◌, some, Result, ok, err,
  List, [], ◌∷◌,
}
use hyper_server.Future.{Polled, panics, waits, completes}
use hyper_server.Stream.{Arrival}
use hyper_server.Watch.{IsWatch}
use hyper_server.Task.{Host}
use hyper_server.Server.Invariant.{total_live}
use hyper_server.Server.Shutdown.{shutdown_cuts_no_connection}
use hyper_server.Server.Frame.{run-append}
use hyper_server.Server.{Phase, Server, Turn, main, task, turn, run}
use hyper_server.Lifecycle.Heard.{main_polls, interrupt_after, HasCome, interrupt-HasCome}
use hyper_server.Lifecycle.{
  Ending, interrupted_by, joining, ended, unwound, Outside, Example, launch, join, after_interrupt,
  poll_main, Step, main_poll, server_poll, task_poll, server_turn, step_in, step, steps, is_over,
}

module _ (host : Host) (outside : Outside host) where
  open host use {IO, IE, Signal}
  open outside use {Interrupt, E, Cx, context}

  -- The turns of the server in a step.
  abbrev pub turns_of : Bool → Step host outside → List (Turn host) → List (Turn host)
  turns_of sent (main_poll cx) ts = ts
  turns_of sent (server_poll first cx) ts = main first (context sent cx) ∷ ts
  turns_of sent (task_poll i draws cx) ts = task i draws (context sent cx) ∷ ts

  -- What a program knows of its server by where it stands.
  abbrev Knows : Ending Interrupt E → Bool → Phase → Type 0
  Knows (interrupted_by i) sent phase = sent ≡ false
  Knows joining sent phase = sent ≡ true
  Knows (ended (ok u)) sent phase = (sent ≡ true) × (phase ≡ Phase.returned)
  Knows (ended (err e)) sent phase = sent ≡ true
  Knows unwound sent phase = sent ≡ true

  abbrev Known : Example host outside → Type 0
  Known p = Knows p.ending p.sent p.server.phase

  join-Knows : (phase : Phase) → Knows (join host outside phase) true phase
  unfolding join
  join-Knows Phase.accepting = refl
  join-Knows Phase.draining = refl
  join-Knows Phase.returned = (refl, refl)
  join-Knows Phase.panicked = refl
  join-Knows Phase.dropped = refl

  poll_main-Known :
      (cx : Cx) (p : Example host outside) → Known p → Known (poll_main host outside p.ending cx p)
  unfolding poll_main after_interrupt
  poll_main-Known cx p h = go p.ending refl h
    where
      interrupted :
          (r : Polled Interrupt (Result E (Unit {0})))
          → p.sent ≡ false
          → Known (after_interrupt host outside r p)
      interrupted panics e = refl
      interrupted (waits i) e = e
      interrupted (completes (err e') i) e = refl
      interrupted (completes (ok u) i) e = join-Knows p.server.phase

      go :
          (e : Ending Interrupt E)
          → p.ending ≡ e
          → Knows e p.sent p.server.phase
          → Known (poll_main host outside e cx p)
      go (interrupted_by i) e k = interrupted (outside.interrupt.poll i cx) k
      go joining e k =
          subst (λ s. Knows (join host outside p.server.phase) s p.server.phase) (sym k)
            (join-Knows p.server.phase)
      go (ended (ok u)) e k = subst (λ x. Knows x p.sent p.server.phase) (sym e) k
      go (ended (err e')) e k = subst (λ x. Knows x p.sent p.server.phase) (sym e) k
      go unwound e k = subst (λ x. Knows x p.sent p.server.phase) (sym e) k

  -- A turn of the server while `main` is not over.
  turned-Known :
      (s : Server host) (p : Example host outside)
      → is_over p.ending ≡ false
      → Known p
      → Known (record p { server = s })
  turned-Known s p n h = go p.ending n h
    where
      go :
          (e : Ending Interrupt E)
          → is_over e ≡ false
          → Knows e p.sent p.server.phase
          → Knows e p.sent s.phase
      go (interrupted_by i) m k = k
      go joining m k = k
      go (ended r) m k = cc
      go unwound m k = cc

  step-Known :
      (st : Step host outside) (p : Example host outside) → Known p → Known (step host outside st p)
  unfolding step step_in
  step-Known st p h = go (is_over p.ending) refl st
    where
      go :
          (b : Bool)
          → is_over p.ending ≡ b
          → (st' : Step host outside) → Known (if b then p else step_in host outside st' p)
      go true n st' = h
      go false n (main_poll cx) = poll_main-Known cx p h
      go false n (server_poll first cx) =
          turned-Known (server_turn host outside (server_poll first cx) p) p n h
      go false n (task_poll i draws cx) =
          turned-Known (server_turn host outside (task_poll i draws cx) p) p n h

  steps-Known :
      (sts : List (Step host outside)) (p : Example host outside)
      → Known p
      → Known (steps host outside sts p)
  unfolding steps
  steps-Known [] p h = h
  steps-Known (st ∷ sts) p h = steps-Known sts (step host outside st p) (step-Known st p h)

  pub joining-sent :
      (interrupt : Interrupt) (shutdown_rx : Signal) (incoming : List (Arrival (Result IE IO)))
      (sts : List (Step host outside))
      → (steps host outside sts (launch host outside interrupt shutdown_rx incoming)).ending
        ≡ joining
      → (steps host outside sts (launch host outside interrupt shutdown_rx incoming)).sent ≡ true
  unfolding launch
  joining-sent interrupt shutdown_rx incoming sts e =
      subst (λ x. Knows x p.sent p.server.phase) e
        (steps-Known sts (launch host outside interrupt shutdown_rx incoming) refl)
    where
      p : Example host outside
      p = steps host outside sts (launch host outside interrupt shutdown_rx incoming)

  -- The server of a program after some steps is one after some turns.
  poll_main-server :
      (cx : Cx) (p : Example host outside)
      → (poll_main host outside p.ending cx p).server ≡ p.server
  unfolding poll_main after_interrupt
  poll_main-server cx p = ground arith

  step-server :
      (st : Step host outside) (p : Example host outside)
      → (ts : List (Turn host)) × ((step host outside st p).server ≡ run host ts p.server)
  unfolding step step_in run turn
  step-server st p = go (is_over p.ending) st
    where
      go :
          (b : Bool) (st' : Step host outside)
          → (ts : List (Turn host)) × ((if b then p else step_in host outside st' p).server
              ≡ run host ts p.server)
      go true st' = ([], refl)
      go false (main_poll cx) = ([], poll_main-server cx p)
      go false (server_poll first cx) = (main first (context p.sent cx) ∷ [], refl)
      go false (task_poll i draws cx) = (task i draws (context p.sent cx) ∷ [], refl)

  pub steps-server :
      (sts : List (Step host outside)) (p : Example host outside)
      → (ts : List (Turn host)) × ((steps host outside sts p).server ≡ run host ts p.server)
  unfolding steps run
  steps-server [] p = ([], refl)
  steps-server (st ∷ sts) p =
      let (ts, e) = step-server st p in
      let (us, f) = steps-server sts (step host outside st p) in
      (ts ++ us, f ∙ ap (run host us) e ∙ sym (run-append host ts us p.server))

  -- The watch channel being as documented: when `main` returns `Ok(())`, the future of `ctrl_c()` has
  -- completed with `Ok(())` in the polls of `main`, the shutdown signal has been sent, the server has
  -- returned, and no task of a connection is left to be dropped with the runtime.
  pub main_ends_after_its_connections :
      IsWatch host.watch
      → (interrupt : Interrupt) (shutdown_rx : Signal) (incoming : List (Arrival (Result IE IO)))
        (sts : List (Step host outside))
      → (steps host outside sts (launch host outside interrupt shutdown_rx incoming)).ending
        ≡ ended (ok tt)
      → HasCome host outside (interrupt_after host outside (main_polls host outside sts) interrupt)
        × ((steps host outside sts (launch host outside interrupt shutdown_rx incoming)).sent
            ≡ true)
        × ((steps host outside sts
              (launch host outside interrupt shutdown_rx incoming)).server.phase
            ≡ Phase.returned)
        × (total_live
              (steps host outside sts
                (launch host outside interrupt shutdown_rx incoming)).server.tasks
            ≡ 0)
  unfolding launch
  main_ends_after_its_connections laws interrupt shutdown_rx incoming sts e =
      let (sent, returned) =
        subst (λ x. Knows x p.sent p.server.phase) e
          (steps-Known sts (launch host outside interrupt shutdown_rx incoming) refl) in
      let (ts, f) = steps-server sts (launch host outside interrupt shutdown_rx incoming) in
      (
        interrupt-HasCome host outside sts (launch host outside interrupt shutdown_rx incoming)
            interrupt refl e,
        sent,
        returned,
        subst (λ s. total_live s.tasks ≡ 0) (sym f)
            (shutdown_cuts_no_connection host laws (some shutdown_rx) true incoming ts
              (ap (λ s. s.phase) (sym f) ∙ returned)).1,
      )
    where
      p : Example host outside
      p = steps host outside sts (launch host outside interrupt shutdown_rx incoming)
