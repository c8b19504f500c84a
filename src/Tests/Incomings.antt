-- ===== src/Tests/Incomings.antt =====
-- The tests of src/tls.rs over handshakes of two polls.
use hyper_server.Prelude.{
  ℕ, zero, suc, ◌+◌, ◌<◌, ◌≡◌, refl, sym, String, Option, none, some, List, Result, ok, err, length,
}
use mathlib.Core.Path.{subst}
use hyper_server.Future.{Finishes, Polled, waits, completes}
use hyper_server.Errors.{ErrorKind, IoError}
use hyper_server.Trust.{create_test_tls_acceptor, generate_dynamic_tls_config}
use hyper_server.Trust.Incoming.{
  Fails, Link, IsLink, passes, test_tls_incoming_success, test_tls_incoming_invalid_cert,
  test_tls_incoming_client_hello_timeout,
}
use hyper_server.Trust.Incoming.Trials.{tls_stream_tests_pass}
use hyper_server.Tests.Fixtures.{error_of}
use hyper_server.Tests.Trusts.{Alert, handshake, pki}

-- What the client's result means for the server.
abbrev outcome : Result Alert (Unit {0}) → Result IoError ℕ
outcome (ok connected) = ok 7
outcome (err alert) = err (error_of ErrorKind.invalid_data)

-- A handshake by the polls that it still waits and its outcome; none ends with a silent client.
abbrev accept : String → Option (Option String × String) → Option (ℕ × Result IoError ℕ)
accept server none = none
accept server (some (client, name)) = some (1, outcome (handshake client name server))

abbrev poll_accept :
    Option (ℕ × Result IoError ℕ)
    → Unit {0}
    → Polled (Option (ℕ × Result IoError ℕ)) (Result IoError ℕ)
poll_accept none cx = waits none
poll_accept (some (zero, r)) cx = completes r none
poll_accept (some (suc n, r)) cx = waits (some (n, r))

abbrev link : Link pki
link = record {
  Tcp = Option (Option String × String);
  TlsStream = ℕ;
  H = Option (ℕ × Result IoError ℕ);
  Cx = Unit {0};
  from_client = λ client name. some (client, name);
  from_silent = none;
  accept = accept;
  handshake = record { poll = poll_accept };
}

accepted :
    (r : Result Alert (Unit {0}))
    → r ≡ ok tt
    → (n : ℕ) × (tls_stream : ℕ) × Finishes {Cx = Unit {0}}
        (record { poll = poll_accept })
        n
        (some (1, outcome r))
        (ok tls_stream)
accepted (ok connected) e = (1, 7, λ cx. (some (0, ok 7), refl, λ cx'. (none, refl)))
accepted (err alert) e = cc

refused :
    (r : Result Alert (Unit {0}))
    → Fails r
    → (n : ℕ) × (e : IoError) × Finishes {Cx = Unit {0}}
        (record { poll = poll_accept })
        n
        (some (1, outcome r))
        (err e)
refused (ok connected) f = absurd f
refused (err alert) f = (1, error_of ErrorKind.invalid_data, λ cx. (_, refl, λ cx'. (none, refl)))

link-IsLink : IsLink pki link
link-IsLink = record {
  agrees = λ client name server e. accepted (handshake client name server) e;
  refuses = λ client name server f. refused (handshake client name server) f;
  Silent = λ h. h ≡ none;
  silent = λ server. refl;
  stalls = λ server. record {
    stays = λ h cx s. (none, subst (λ h'. poll_accept h' cx ≡ waits none) (sym s) refl, refl);
  };
}

is_created : create_test_tls_acceptor pki ≡ ok ("localhost", some "localhost")
unfolding create_test_tls_acceptor generate_dynamic_tls_config
is_created = refl

is_trusted : handshake (some "localhost") "localhost" "localhost" ≡ ok tt
is_trusted = refl

tls_stream_tests_pass_example :
    ((n : ℕ) × ((before more : ℕ) (cxs : List (Unit {0}))
        → n + before < length cxs
        → test_tls_incoming_success pki link before more cxs ≡ passes))
    × ((before more : ℕ) (cxs : List (Unit {0}))
        → test_tls_incoming_invalid_cert pki link before more cxs ≡ passes)
    × ((before more : ℕ) (cxs : List (Unit {0}))
        → test_tls_incoming_client_hello_timeout pki link before more cxs ≡ passes)
tls_stream_tests_pass_example = tls_stream_tests_pass pki link link-IsLink is_created is_trusted tt
