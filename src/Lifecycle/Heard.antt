-- ===== src/Lifecycle/Heard.antt =====
-- `ctrl_c().await?` in `main` of the examples (examples/tower_service_fn.rs, examples/tonic.rs).
use hyper_server.Prelude.{
  ◌≡◌, refl, sym, ap, ◌∙◌, true, if◌then◌else◌, Result, ok, err, List, [], ◌∷◌,
}
use hyper_server.Future.{Polled, panics, waits, completes}
use hyper_server.Task.{Host}
use hyper_server.Lifecycle.{
  Ending, interrupted_by, ended, Outside, Example, after_interrupt, poll_main, Step, main_poll,
  server_poll, task_poll, step_in, step, steps, is_over,
}

module _ (host : Host) (outside : Outside host) where
  open outside use {Interrupt, E, Cx}

  -- The polls of `main`.
  abbrev pub main_polls : List (Step host outside) → List Cx
  main_polls [] = []
  main_polls (main_poll cx ∷ sts) = cx ∷ main_polls sts
  main_polls (server_poll first cx ∷ sts) = main_polls sts
  main_polls (task_poll i draws cx ∷ sts) = main_polls sts

  abbrev once_polled :
      Polled Interrupt (Result E (Unit {0}))
      → (Interrupt → Polled Interrupt (Result E (Unit {0})))
      → Polled Interrupt (Result E (Unit {0}))
  once_polled panics rest = panics
  once_polled (waits i) rest = rest i
  once_polled (completes r i) rest = completes r i

  -- What the future of `ctrl_c()` has come to when it is polled so until it completes.
  abbrev pub interrupt_after : List Cx → Interrupt → Polled Interrupt (Result E (Unit {0}))
  interrupt_after [] i = waits i
  interrupt_after (cx ∷ cxs) i = once_polled (outside.interrupt.poll i cx) (interrupt_after cxs)

  -- It has completed with `Ok(())`.
  abbrev pub HasCome : Polled Interrupt (Result E (Unit {0})) → Type 0
  HasCome r = (i : Interrupt) × (r ≡ completes (ok tt) i)

  abbrev Done : Example host outside → Type 0
  Done p = p.ending ≡ ended (ok tt)

  steps-over :
      (sts : List (Step host outside)) (p : Example host outside)
      → is_over p.ending ≡ true
      → steps host outside sts p ≡ p
  unfolding steps step
  steps-over [] p e = refl
  steps-over (st ∷ sts) p e =
      ap (steps host outside sts) (ap (λ b. if b then p else step_in host outside st p) e)
      ∙ steps-over sts p e

  step-main_poll :
      (cx : Cx) (p : Example host outside) (i : Interrupt)
      → p.ending ≡ interrupted_by i
      → step host outside (main_poll cx) p
        ≡ after_interrupt host outside (outside.interrupt.poll i cx) p
  unfolding step step_in poll_main
  step-main_poll cx p i e = rw e refl

  -- A poll of something else.
  step-others :
      (st : Step host outside) (p : Example host outside) (i : Interrupt)
      → p.ending ≡ interrupted_by i
      → (step_in host outside st p).ending ≡ p.ending
      → (step host outside st p).ending ≡ interrupted_by i
  unfolding step
  step-others st p i e same =
      ap (λ x. (if is_over x then p else step_in host outside st p).ending) e ∙ same ∙ e

  -- A `main` that has ended otherwise does not come to `Ok(())`.
  ends_otherwise :
      (sts : List (Step host outside)) (p : Example host outside)
      → is_over p.ending ≡ true
      → ¬ (p.ending ≡ ended (ok tt))
      → ¬ (Done (steps host outside sts p))
  ends_otherwise sts p e n d = n (sym (ap (λ q. q.ending) (steps-over sts p e)) ∙ d)

  pub interrupt-HasCome :
      (sts : List (Step host outside)) (p : Example host outside) (i : Interrupt)
      → p.ending ≡ interrupted_by i
      → Done (steps host outside sts p)
      → HasCome (interrupt_after (main_polls sts) i)
  unfolding steps step_in after_interrupt
  interrupt-HasCome [] p i e done = absurd (not_yet (sym e ∙ done))
    where
      not_yet : ¬ (◌≡◌ {A = Ending Interrupt E} (interrupted_by i) (ended (ok tt)))
      not_yet f = cc
  interrupt-HasCome (main_poll cx ∷ sts) p i e done =
      go (outside.interrupt.poll i cx)
        (sym (ap (λ q. (steps host outside sts q).ending) (step-main_poll cx p i e)) ∙ done)
        (interrupt-HasCome sts)
    where
      go :
          (r : Polled Interrupt (Result E (Unit {0})))
          → Done (steps host outside sts (after_interrupt host outside r p))
          → ((q : Example host outside) (j : Interrupt)
              → q.ending ≡ interrupted_by j
              → Done (steps host outside sts q)
              → HasCome (interrupt_after (main_polls sts) j))
          → HasCome (once_polled r (interrupt_after (main_polls sts)))
      go panics d next = absurd (ends_otherwise sts _ refl (λ f. cc) d)
      go (waits j) d next = next _ j refl d
      go (completes (err x) j) d next = absurd (ends_otherwise sts _ refl (λ f. cc) d)
      go (completes (ok u) j) d next = (j, refl)
  interrupt-HasCome (server_poll first cx ∷ sts) p i e done =
      interrupt-HasCome sts _ i (step-others (server_poll first cx) p i e refl) done
  interrupt-HasCome (task_poll j draws cx ∷ sts) p i e done =
      interrupt-HasCome sts _ i (step-others (task_poll j draws cx) p i e refl) done
