-- ===== src/Tests/Fuses.antt =====
-- A `Fuse` over a future that panics when it is polled again (src/fuse.rs).
use hyper_server.Prelude.{ℕ, ◌≤◌, ◌≡◌, refl, some, List, [], ◌∷◌}
use hyper_server.Future.{pending, ready, panic, observe}
use hyper_server.Fuse.{poll_fuse, fuse_future}
use hyper_server.Fuse.Once.{once, completions, observe-fuse, completions-observe-fuse}
use hyper_server.Tests.Fixtures.{delay}

abbrev four : List (Unit {0})
four = tt ∷ tt ∷ tt ∷ tt ∷ []

-- The bare future panics at the third poll, and the fuse stays pending.
bare_future_panics : observe (delay {A = ℕ} 5) (some 1) four ≡ pending ∷ ready 5 ∷ panic ∷ []
unfolding observe
bare_future_panics = refl

fused_future_is_pending :
    observe (fuse_future (delay {A = ℕ} 5)) (record { inner = some (some 1) }) four
    ≡ pending ∷ ready 5 ∷ pending ∷ pending ∷ []
unfolding observe poll_fuse
fused_future_is_pending = refl

observe-fuse_example :
    observe (fuse_future (delay {A = ℕ} 5)) (record { inner = some (some 1) }) four
    ≡ once four (observe (delay {A = ℕ} 5) (some 1) four)
observe-fuse_example = observe-fuse (delay {A = ℕ} 5) (some 1) four

completions-observe-fuse_example :
    completions (observe (fuse_future (delay {A = ℕ} 5)) (record { inner = some (some 1) }) four)
    ≤ 1
completions-observe-fuse_example =
    completions-observe-fuse (delay {A = ℕ} 5) (record { inner = some (some 1) }) four
