-- ===== src/Lifecycle/Serves.antt =====
-- What the server of the examples does until the interrupt (examples/tower_service_fn.rs,
-- examples/tonic.rs).
use mathlib.Core.Path.{subst}
use hyper_server.Prelude.{
  ◌≡◌, refl, sym, ◌∙◌, arith, Bool, true, false, if◌then◌else◌, Result, ok, err, List, [], ◌∷◌,
}
use hyper_server.Future.{Polled, panics, waits, completes}
use hyper_server.Stream.{Arrival}
use hyper_server.Task.{Host}
use hyper_server.Server.Frame.{phase-task_turn}
use hyper_server.Server.Silent.{main_turn-waiting}
use hyper_server.Server.{Phase, start}
use hyper_server.Lifecycle.{
  Ending, interrupted_by, joining, ended, unwound, Outside, Example, launch, after_interrupt,
  poll_main, Step, main_poll, server_poll, task_poll, step_in, step, steps, is_over,
}

module _ (host : Host) (outside : Outside host) where
  open host use {IO, IE, Signal}
  open outside use {Interrupt, E, Cx, context}

  -- What the documentation of `oneshot` says: a receiver waits until its sender has sent or is gone.
  abbrev pub WaitsForSender : Type 0
  WaitsForSender =
      (f : Signal) (cx : Cx) → (f' : Signal) × (host.signal.poll f (context false cx) ≡ waits f')

  module _ (waits_for_sender : WaitsForSender) where
    -- The interrupt has come, or the program is where it was launched.
    data Uninterrupted (p : Example host outside) : Type 0 where
      over : p.sent ≡ true → Uninterrupted p
      serves :
          (i : Interrupt)
          → p.sent ≡ false
          → p.ending ≡ interrupted_by i
          → p.server.phase ≡ Phase.accepting
          → Uninterrupted p

    after_interrupt-Uninterrupted :
        (r : Polled Interrupt (Result E (Unit {0}))) (p : Example host outside)
        → p.sent ≡ false
        → p.server.phase ≡ Phase.accepting
        → Uninterrupted (after_interrupt host outside r p)
    unfolding after_interrupt
    after_interrupt-Uninterrupted panics p e a = over refl
    after_interrupt-Uninterrupted (waits i) p e a = serves i e refl a
    after_interrupt-Uninterrupted (completes (err e') i) p e a = over refl
    after_interrupt-Uninterrupted (completes (ok u) i) p e a = over refl

    launched-Uninterrupted :
        (st : Step host outside) (i : Interrupt) (p : Example host outside)
        → p.sent ≡ false
        → p.ending ≡ interrupted_by i
        → p.server.phase ≡ Phase.accepting
        → Uninterrupted (step_in host outside st p)
    unfolding step_in poll_main
    launched-Uninterrupted (main_poll cx) i p e n a = go p.ending n
      where
        go :
            (end : Ending Interrupt E)
            → end ≡ interrupted_by i
            → Uninterrupted (poll_main host outside end cx p)
        go (interrupted_by i') m =
            after_interrupt-Uninterrupted (outside.interrupt.poll i' cx) p e a
        go joining m = cc
        go (ended r) m = cc
        go unwound m = cc
    launched-Uninterrupted (server_poll first cx) i p e n a = serves i e n (
        main_turn-waiting host first (context p.sent cx) p.server
          (λ f.
            subst (λ b. (f' : Signal) × (host.signal.poll f (context b cx) ≡ waits f')) (sym e)
              (waits_for_sender f cx))
          a)
    launched-Uninterrupted (task_poll j draws cx) i p e n a =
        serves i e n (phase-task_turn host j draws (context p.sent cx) p.server ∙ a)

    sent-step_in :
        (st : Step host outside) (p : Example host outside)
        → p.sent ≡ true
        → (step_in host outside st p).sent ≡ true
    unfolding step_in poll_main after_interrupt
    sent-step_in (main_poll cx) p e = ground arith
    sent-step_in (server_poll first cx) p e = e
    sent-step_in (task_poll i draws cx) p e = e

    step-Uninterrupted :
        (st : Step host outside) (p : Example host outside)
        → Uninterrupted p
        → Uninterrupted (step host outside st p)
    unfolding step
    step-Uninterrupted st p h = go (is_over p.ending) h
      where
        go :
            (b : Bool)
            → Uninterrupted p
            → Uninterrupted (if b then p else step_in host outside st p)
        go true k = k
        go false (over e) = over (sent-step_in st p e)
        go false (serves i e n a) = launched-Uninterrupted st i p e n a

    steps-Uninterrupted :
        (sts : List (Step host outside)) (p : Example host outside)
        → Uninterrupted p
        → Uninterrupted (steps host outside sts p)
    unfolding steps
    steps-Uninterrupted [] p h = h
    steps-Uninterrupted (st ∷ sts) p h =
        steps-Uninterrupted sts (step host outside st p) (step-Uninterrupted st p h)

    -- If a poll of the receiver waits until its sender has sent or is gone: as long as `main` has neither
    -- sent nor failed, it waits for the interrupt, and the server is in its accept loop.
    pub server_accepts_until_interrupt :
        (interrupt : Interrupt) (shutdown_rx : Signal) (incoming : List (Arrival (Result IE IO)))
        (sts : List (Step host outside))
        → (steps host outside sts (launch host outside interrupt shutdown_rx incoming)).sent ≡ false
        → ((steps host outside sts
              (launch host outside interrupt shutdown_rx incoming)).server.phase
            ≡ Phase.accepting)
          × (i : Interrupt) × ((steps host outside sts
                (launch host outside interrupt shutdown_rx incoming)).ending
              ≡ interrupted_by i)
    unfolding launch start
    server_accepts_until_interrupt interrupt shutdown_rx incoming sts unsent =
        go (steps host outside sts (launch host outside interrupt shutdown_rx incoming)) unsent (
          steps-Uninterrupted sts (launch host outside interrupt shutdown_rx incoming)
            (serves interrupt refl refl refl))
      where
        go :
            (p : Example host outside)
            → p.sent ≡ false
            → Uninterrupted p
            → (p.server.phase ≡ Phase.accepting) × (i : Interrupt) × (p.ending ≡ interrupted_by i)
        go p n (over e) = cc
        go p n (serves i e m a) = (a, i, m)
