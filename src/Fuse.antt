-- ===== src/Fuse.antt =====
-- src/fuse.rs: the wrapper that forgets a future once it has completed.
pub mod Once
use hyper_server.Prelude.{Option, none, some}
use hyper_server.Future.{Polled, panics, waits, completes, Future}

pub record Fuse {ℓ} (F : Type ℓ) : Type ℓ where
  pub inner : Option F

-- `.map(|output| { self.project().inner.set(None); output })` on what the inner poll returned
abbrev pub settle {ℓ κ} : {F : Type ℓ} {A : Type κ} → Polled F A → Polled (Fuse F) A
settle panics = panics
settle (waits fut) = waits (record { inner = some fut })
settle (completes output fut) = completes output (record { inner = none })

module _ {ℓ κ μ} {Cx : Type μ} {F : Type ℓ} {A : Type κ} (f : Future Cx F A) where
  -- `poll`
  unfoldable pub poll_fuse : Fuse F → Cx → Polled (Fuse F) A
  poll_fuse s cx = elim s.inner [ some fut ↦ settle (f.poll fut cx) | none ↦ waits s ]

  -- `impl Future for Fuse`
  abbrev pub fuse_future : Future Cx (Fuse F) A
  fuse_future = record { poll = poll_fuse }
