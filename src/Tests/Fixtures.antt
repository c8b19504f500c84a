-- ===== src/Tests/Fixtures.antt =====
-- A host, a watch channel and futures to run the models of src/http.rs on.
use hyper_server.Prelude.{
  ℕ, zero, suc, ◌+◌, ◌-◌, ◌≡◌, refl, Bool, true, false, Option, none, some, List, [], ◌∷◌, Result,
  ok, arith,
}
use hyper_server.Future.{Future, Polled, panics, waits, completes, IsSound}
use hyper_server.Errors.{ErrorKind, IoError, io, io_error, nothing}
use hyper_server.Watch.{Watch, IsWatch}
use hyper_server.Connection.{Branch, conn_branch, sleep_branch, sig_branch, Parts}
use hyper_server.Connection.Select.{Round}
use hyper_server.Connection.Safety.{SoundParts}
use hyper_server.Connection.Shutdowns.{Counts, KeptBy}
use hyper_server.Task.{Host, joined, TaskCx, parts}

-- A future that is ready after so many polls, and panics when it is polled again.
abbrev pub poll_delay : {Cx A : Type 0} → A → Option ℕ → Cx → Polled (Option ℕ) A
poll_delay a none cx = panics
poll_delay a (some zero) cx = completes a none
poll_delay a (some (suc n)) cx = waits (some n)

abbrev pub delay : {Cx A : Type 0} → A → Future Cx (Option ℕ) A
delay a = record { poll = poll_delay a }

abbrev pub DelayLive : Option ℕ → Type 0
DelayLive none = ⊥
DelayLive (some n) = Unit

pub delay-IsSound : {Cx A : Type 0} (a : A) → IsSound (delay {Cx = Cx} a) DelayLive
delay-IsSound a none cx h = absurd h
delay-IsSound a (some zero) cx h = tt
delay-IsSound a (some (suc n)) cx h = tt

abbrev pub error_of : ErrorKind → IoError
error_of kind = io_error kind nothing

-- A connection: how often it was asked to shut down, and how many polls it takes; or it has ended.
pub data MockConn : Type 0 where
  open_conn : (requests rounds : ℕ) → MockConn
  closed_conn : (requests : ℕ) → MockConn

abbrev pub poll_conn : {Cx : Type 0} → MockConn → Cx → Polled MockConn (Result ℕ (Unit {0}))
poll_conn (closed_conn requests) cx = panics
poll_conn (open_conn requests zero) cx = completes (ok tt) (closed_conn requests)
poll_conn (open_conn requests (suc n)) cx = waits (open_conn requests n)

abbrev pub ask : MockConn → MockConn
ask (open_conn requests rounds) = open_conn (suc requests) rounds
ask (closed_conn requests) = closed_conn (suc requests)

abbrev pub requests_of : MockConn → ℕ
requests_of (open_conn requests rounds) = requests
requests_of (closed_conn requests) = requests

abbrev pub ConnLive : MockConn → Type 0
ConnLive (open_conn requests rounds) = Unit
ConnLive (closed_conn requests) = ⊥

-- The number of receivers, and whether a value was sent or the sender is gone.
abbrev pub has_none : ℕ × Bool → Bool
has_none (zero, sent) = true
has_none (suc n, sent) = false

abbrev pub broadcast : ℕ × Bool → ℕ × Bool
broadcast (zero, sent) = (zero, sent)
broadcast (suc n, sent) = (suc n, true)

abbrev pub counting_watch : Watch (ℕ × Bool)
counting_watch = record {
  channel = (1, false);
  clone_receiver = λ (n, sent). (n + 1, sent);
  drop_receiver = λ (n, sent). (n - 1, sent);
  send = broadcast;
  drop_sender = λ (n, sent). (n, true);
  receiver_count = λ c. c.0;
  has_changed = λ c. c.1;
  is_closed = has_none;
}

pub counting_watch-IsWatch : IsWatch counting_watch
counting_watch-IsWatch = record {
  count-channel = refl;
  count-clone = λ c. refl;
  count-drop = λ c. refl;
  count-send = λ c. ground arith;
  count-drop_sender = λ c. refl;
  changed-channel = refl;
  changed-clone = λ c. refl;
  changed-drop = λ c. refl;
  changed-send = λ c h. ground arith;
  changed-drop_sender = λ c. refl;
  closed_iff = λ c. ground arith;
}

-- Connections that take two polls, and handshakes that take one.
abbrev pub host_of : (Cx : Type 0) → Future Cx (Option ℕ) (Unit {0}) → Host
host_of Cx signal = record {
  IO = ℕ;
  IE = IoError;
  TlsStream = ℕ;
  Handshake = Option ℕ;
  Cx = Cx;
  Conn = MockConn;
  E = ℕ;
  Duration = ℕ;
  Timer = Option ℕ;
  Signal = Option ℕ;
  Channel = ℕ × Bool;
  into = io;
  spawn_accept = λ stream. some 1;
  handshake = delay (joined (ok 7));
  serve_connection = λ transport. open_conn 0 2;
  connection = record { poll = poll_conn };
  graceful_shutdown = ask;
  start_sleep = λ d cx. some d;
  timer = delay tt;
  signal = signal;
  watch = counting_watch;
}

abbrev pub host : Host
host = host_of (Unit {0}) (delay tt)

-- Every branch, in the order of the source.
abbrev pub in_order : ℕ → List Branch
in_order n = conn_branch ∷ sleep_branch ∷ sig_branch ∷ []

-- A connection with a timer and a signal of its own.
abbrev pub delays : Parts (Unit {0}) MockConn ℕ ℕ (Option ℕ) (Option ℕ)
delays = record {
  connection = record { poll = poll_conn };
  graceful_shutdown = ask;
  start_sleep = λ d cx. some d;
  timer = delay tt;
  changed = delay tt;
}

pub delays-SoundParts : SoundParts delays ConnLive DelayLive DelayLive
delays-SoundParts = record {
  connection = conn;
  graceful_shutdown = asked;
  start_sleep = λ d cx. tt;
  timer = delay-IsSound tt;
  changed = delay-IsSound tt;
}
  where
    conn : IsSound {Cx = Unit {0}} (record { poll = poll_conn }) ConnLive
    conn (open_conn requests zero) cx h = tt
    conn (open_conn requests (suc n)) cx h = tt
    conn (closed_conn requests) cx h = absurd h

    asked : (c : MockConn) → ConnLive c → ConnLive (ask c)
    asked (open_conn requests rounds) h = tt
    asked (closed_conn requests) h = absurd h

ask-counted : (c : MockConn) → requests_of (ask c) ≡ requests_of c + 1
ask-counted (open_conn requests rounds) = omega arith
ask-counted (closed_conn requests) = omega arith

poll_conn-KeptBy :
    {Cx : Type 0} (c : MockConn) (cx : Cx)
    → Round Unit
        (λ c'. requests_of c' ≡ requests_of c)
        (λ r c'. requests_of c' ≡ requests_of c)
        (poll_conn c cx)
poll_conn-KeptBy (open_conn requests zero) cx = refl
poll_conn-KeptBy (open_conn requests (suc n)) cx = refl
poll_conn-KeptBy (closed_conn requests) cx = tt

pub delays-Counts : Counts delays requests_of
delays-Counts = record { on_poll = poll_conn-KeptBy; on_shutdown = ask-counted }

host-KeptBy :
    (c : MockConn) (cx : TaskCx host)
    → KeptBy (parts host) requests_of c ((parts host).connection.poll c cx)
host-KeptBy (open_conn requests zero) cx = refl
host-KeptBy (open_conn requests (suc n)) cx = refl
host-KeptBy (closed_conn requests) cx = tt

pub host-Counts : Counts (parts host) requests_of
host-Counts = record { on_poll = host-KeptBy; on_shutdown = ask-counted }
