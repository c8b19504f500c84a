-- ===== src/Server/Progress.antt =====
-- What the accept loop takes of the incoming stream, turn by turn (src/http.rs, src/tcp.rs).
use mathlib.Core.List.{append-nil}
use hyper_server.Prelude.{
  ℕ, ◌+◌, ◌-◌, ◌≤◌, ◌≡◌, refl, sym, ◌∙◌, Bool, true, none, List, [], ◌∷◌, ◌++◌, map, Result, length,
  arith,
}
use hyper_server.Stream.{Arrival, items}
use hyper_server.Errors.{BoxError}
use hyper_server.Tcp.Demux.{accepted}
use hyper_server.Task.{Host, Task, spawned}
use hyper_server.Server.Spawning.{one_task_for_each_connection}
use hyper_server.Server.Order.{born, tasks_are_spawned_in_order}
use hyper_server.Server.Polls.{Kept, Advances}
use hyper_server.Server.Outcomes.{
  FiresIn-armed, Outcome, goes_on, spawns, shuts_down, unwinds, accept_round-Outcome,
}
use hyper_server.Server.{
  Phase, First, Server, Turn, main, task, start, spawn, main_in, main_turn, task_turn, turn, run,
}

-- How often the main future has its turn.
abbrev pub main_turns : {host : Host} → List (Turn host) → ℕ
main_turns [] = 0
main_turns (main first cx ∷ ts) = main_turns ts + 1
main_turns (task i draws cx ∷ ts) = main_turns ts

module _ (host : Host) where
  open host use {IO, IE, Cx}

  -- A loop without a signal, and with at most so many arrivals left.
  record Plain (n : ℕ) (s : Server host) : Type 0 where
    phase : s.phase ≡ Phase.accepting
    unsignalled : s.sig.inner ≡ none
    bounded : length s.incoming ≤ n
    over : s.exhausted ≡ true → s.incoming ≡ []

  -- What a round leaves of such a loop, whatever it keeps.
  Advances-Plain :
      (n : ℕ) {s t : Server host} → Plain (n + 1) s → Kept host s t → Advances host s t → Plain n t
  Advances-Plain n p k advances = record {
    phase = k.phase ∙ p.phase;
    unsignalled = k.unsignalled p.unsignalled;
    bounded = let (over, b) = advances p.over in omega (arith, b, p.bounded);
    over = (advances p.over).0;
  }

  spawn-Plain :
      (n : ℕ) (r : Result BoxError IO) (s : Server host) → Plain n s → Plain n (spawn host r s)
  unfolding spawn
  spawn-Plain n r s p = record {
    phase = p.phase;
    unsignalled = p.unsignalled;
    bounded = p.bounded;
    over = p.over;
  }

  Outcome-Plain :
      (n : ℕ) {s t : Server host} {cx : Cx} → Plain (n + 1) s → Outcome host s cx t → Plain n t
  Outcome-Plain n p (goes_on (k, _, a)) = Advances-Plain n p k a
  Outcome-Plain n p (spawns {t} r (k, _, a)) = spawn-Plain n r t (Advances-Plain n p k a)
  Outcome-Plain n p (shuts_down fires _) = absurd (FiresIn-armed host fires p.unsignalled)
  Outcome-Plain n p (unwinds fires _) = absurd (FiresIn-armed host fires p.unsignalled)

  main_turn-Plain :
      (n : ℕ) (first : First) (cx : Cx) (s : Server host)
      → Plain (n + 1) s
      → Plain n (main_turn host first cx s)
  unfolding main_turn main_in
  main_turn-Plain n first cx s p = go s.phase p.phase
    where
      go : (q : Phase) → q ≡ Phase.accepting → Plain n (main_in host q first s cx)
      go Phase.accepting e = Outcome-Plain n p (accept_round-Outcome host first s cx)
      go Phase.draining e = cc
      go Phase.returned e = cc
      go Phase.panicked e = cc
      go Phase.dropped e = cc

  -- Bounds on what is left only shrink.
  Plain-monotone : (m n : ℕ) (s : Server host) → m ≤ n → Plain m s → Plain n s
  Plain-monotone m n s h p = record {
    phase = p.phase;
    unsignalled = p.unsignalled;
    bounded = omega (arith, p.bounded);
    over = p.over;
  }

  run-Plain :
      (ts : List (Turn host)) (n : ℕ) (s : Server host)
      → Plain n s
      → Plain (n - main_turns ts) (run host ts s)
  unfolding run turn task_turn
  run-Plain [] n s p = Plain-monotone n (n - 0) s (omega arith) p
  run-Plain (main first cx ∷ ts) n s p =
      Plain-monotone ((n - 1) - main_turns ts) (n - (main_turns ts + 1)) _ (omega arith) (
        run-Plain ts (n - 1) (main_turn host first cx s)
          (main_turn-Plain (n - 1) first cx s (Plain-monotone n ((n - 1) + 1) s (omega arith) p)))
  run-Plain (task i draws cx ∷ ts) n s p =
      run-Plain ts n (task_turn host i draws cx s) (record {
        phase = p.phase;
        unsignalled = p.unsignalled;
        bounded = p.bounded;
        over = p.over;
      })

  nothing_left :
      (rest : List (Arrival (Result IE IO))) (n m : ℕ) → n ≤ m → length rest ≤ n - m → rest ≡ []
  nothing_left [] n m h b = refl
  nothing_left (a ∷ rest) n m h b = absurd (omega (arith, b, h))

  -- Without a signal, after as many turns of the main future as the incoming stream has arrivals, in
  -- whatever order they come with the turns of the tasks, the main future has added a task for every
  -- connection and every fatal error of the stream, in its order, and no other tasks are there.
  pub every_connection_is_spawned :
      (tls : Bool) (incoming : List (Arrival (Result IE IO))) (turns : List (Turn host))
      → length incoming ≤ main_turns turns
      → (born turns (start host none tls incoming)
          ≡ map spawned (accepted host.into (items incoming)))
        × (length (run host turns (start host none tls incoming)).tasks
            ≡ length (accepted host.into (items incoming)))
  unfolding start
  every_connection_is_spawned tls incoming turns h =
      emptied (run host turns (start host none tls incoming)).incoming
        (nothing_left _ (length incoming) (main_turns turns) h left.bounded)
        (tasks_are_spawned_in_order host none tls incoming turns)
        (one_task_for_each_connection host none tls incoming turns)
    where
      left :
          Plain (length incoming - main_turns turns) (run host turns (start host none tls incoming))
      left =
          run-Plain turns (length incoming) (start host none tls incoming)
            (record { phase = refl; unsignalled = refl; bounded = omega arith; over = λ e. cc })

      emptied :
          {spawning : List (Task host)} {n : ℕ} (rest : List (Arrival (Result IE IO)))
          → rest ≡ []
          → spawning ++ map spawned (accepted host.into (items rest))
            ≡ map spawned (accepted host.into (items incoming))
          → n + length (accepted host.into (items rest))
            ≡ length (accepted host.into (items incoming))
          → (spawning ≡ map spawned (accepted host.into (items incoming)))
            × (n ≡ length (accepted host.into (items incoming)))
      emptied {spawning} [] over order count =
          (sym (append-nil spawning) ∙ order, omega (arith, count))
      emptied (a ∷ rest) over order count = cc
