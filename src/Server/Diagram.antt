-- ===== src/Server/Diagram.antt =====
-- What `serve_http_with_shutdown` and its tasks promise together, with the order of the tasks, the
-- channel and the stream left out: a phase and the number of live tasks (src/http.rs).
use hyper_server.Prelude.{ℕ, suc, ◌≤◌, ◌≡◌, refl, ◌⊎◌, Bool, true, arith}
use hyper_server.Server.Invariant.{is_sent}
use hyper_server.Server.{Phase}

abbrev pub View : Type 0
View = Phase × ℕ

-- Who takes a turn: the main future, the task of a connection, or the caller, who may drop the main
-- future.
pub data Actor : Type 0 where
  by_main by_task by_caller : Actor

-- The moves of a server that has a signal or has none, by who makes them.
pub data Move (graceful : Bool) : Actor → View → View → Type 0 where
  connect : (n : ℕ) → Move graceful by_main (Phase.accepting, n) (Phase.accepting, suc n)
  leave : (p : Phase) (n : ℕ) → Move graceful by_task (p, suc n) (p, n)
  shut : graceful ≡ true → (n : ℕ) → Move graceful by_main (Phase.accepting, n) (Phase.draining, n)
  finish : Move graceful by_main (Phase.draining, 0) (Phase.returned, 0)
  crash : graceful ≡ true → (n : ℕ) → Move graceful by_main (Phase.accepting, n) (Phase.panicked, n)
  stop : (n : ℕ) → Move graceful by_caller (Phase.accepting, n) (Phase.dropped, n)
  abandon : (n : ℕ) → Move graceful by_caller (Phase.draining, n) (Phase.dropped, n)

-- One move of an actor, or none.
abbrev pub Step : Bool → Actor → View → View → Type 0
Step graceful a v w = (w ≡ v) ⊎ Move graceful a v w

pub data Reach (graceful : Bool) (v : View) : View → Type 0 where
  here : Reach graceful v v
  next : {a : Actor} {w x : View} → Reach graceful v w → Move graceful a w x → Reach graceful v x

-- A move between views that are known by their parts.
pub placed :
    {g : Bool} {a : Actor} {p p' q q' : Phase} {n n' m m' : ℕ}
    → p' ≡ p
    → n' ≡ n
    → q' ≡ q
    → m' ≡ m
    → Move g a (p, n) (q, m)
    → Move g a (p', n') (q', m')
placed e f e' f' x = rw (e, f, e', f') x

-- After the accept loop no connection is added.
abbrev pub Falls : View → View → Type 0
Falls v w = (is_sent w.0 ≡ true) × (w.1 ≤ v.1)

Move-Falls : {g : Bool} {a : Actor} {v w : View} → Move g a v w → is_sent v.0 ≡ true → Falls v w
Move-Falls (connect n) h = cc
Move-Falls (leave p n) h = (h, omega arith)
Move-Falls (shut g n) h = (refl, omega arith)
Move-Falls finish h = (refl, omega arith)
Move-Falls (crash g n) h = (refl, omega arith)
Move-Falls (stop n) h = (refl, omega arith)
Move-Falls (abandon n) h = (refl, omega arith)

pub Reach-Falls : {g : Bool} {v w : View} → is_sent v.0 ≡ true → Reach g v w → Falls v w
Reach-Falls h here = (h, omega arith)
Reach-Falls h (next r m) =
    let (h', le) = Reach-Falls h r in let (h'', le') = Move-Falls m h' in (h'', omega arith)
