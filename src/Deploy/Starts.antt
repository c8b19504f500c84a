-- ===== src/Deploy/Starts.antt =====
-- What the programs hand to `serve_http_with_shutdown`, and when they get there
-- (examples/tower_service_fn.rs, examples/tonic.rs, benches/hello_world_tower_hyper_tls_tcp.rs,
-- tests/main.rs, src/http.rs).
use mathlib.Core.Path.{subst}
use hyper_server.Prelude.{◌≡◌, refl, Result, ok, err, ◌>>=◌, Option, none, some, List, [], ◌∷◌}
use hyper_server.Errors.{BoxError, IoError}
use hyper_server.Deploy.Programs.{
  sample_certs, sample_key, install_provider, localhost, tower_main, tonic_main, grpc_test_server,
  http_test_server, setup_test_tls_config, tls_test_server, setup_server, start_server,
}
use hyper_server.Deploy.{
  tonic_health, tonic_types, tonic_reflection, StartError, Platform, Deployment, io_or_return,
  or_return, or_panic, other,
}

io_or_return-ok {ℓ} : {A : Type ℓ} (r : Result IoError A) (a : A) → io_or_return r ≡ ok a → r ≡ ok a
io_or_return-ok (err e) a h = cc
io_or_return-ok (ok b) a h = cc

or_return-ok {ℓ} : {A : Type ℓ} (r : Result BoxError A) (a : A) → or_return r ≡ ok a → r ≡ ok a
or_return-ok (err e) a h = cc
or_return-ok (ok b) a h = cc

pub or_panic-ok {ℓ κ} :
    {E : Type κ} {A : Type ℓ} (r : Result E A) (a : A) → or_panic r ≡ ok a → r ≡ ok a
or_panic-ok (err e) a h = cc
or_panic-ok (ok b) a h = cc

other-ok {ℓ} : {A : Type ℓ} (r : Result BoxError A) (a : A) → other r ≡ ok a → r ≡ ok a
other-ok (err e) a h = cc
other-ok (ok b) a h = cc

module _ (platform : Platform) where
  open platform use {Listener, Cert, Key, Config, Address}

  -- The programs; the benchmark is given its TLS configuration.
  pub data Program : Type 0 where
    tower tonic grpc_test http_test tls_test : Program
    bench : Config → Program

  abbrev deployed :
      Result StartError (Address × Deployment platform) → Result StartError (Deployment platform)
  deployed (err e) = err e
  deployed (ok (server_addr, d)) = ok d

  unfoldable pub deploy : Program → Result StartError (Deployment platform)
  deploy tower = tower_main platform
  deploy tonic = tonic_main platform
  deploy grpc_test = deployed (grpc_test_server platform)
  deploy http_test = deployed (http_test_server platform)
  deploy tls_test = deployed (tls_test_server platform)
  deploy (bench config) = deployed (start_server platform config)

  -- The protocols that a program sets.
  abbrev pub with_alpn : Program → Config → Config
  with_alpn tower config = platform.set_alpn_protocols ("h2" ∷ "http/1.1" ∷ "http/1.0" ∷ []) config
  with_alpn tonic config = platform.set_alpn_protocols ("h2" ∷ []) config
  with_alpn grpc_test config = platform.set_alpn_protocols ("h2" ∷ []) config
  with_alpn _ config = config

  -- A configuration of the program, from the sample certificate and its key.
  abbrev pub FromSample : Program → Option Config → Type 0
  FromSample p tls_config =
      (certs : List Cert) × (key : Key) × (config : Config) × (sample_certs platform ≡ ok certs)
      × (sample_key platform ≡ ok key)
      × (platform.with_single_cert certs key ≡ ok config)
      × (tls_config ≡ some (with_alpn p config))

  abbrev pub HasTls : Program → Option Config → Type 0
  HasTls http_test tls_config = tls_config ≡ none
  HasTls (bench config) tls_config = tls_config ≡ some config
  HasTls p tls_config = FromSample p tls_config

  abbrev Starts : Program → Deployment platform → Type 0
  Starts p d = (d.signal ≡ some platform.shutdown_rx) × HasTls p d.tls_config

  -- If the program gets to its end, the property holds.
  abbrev Yields : {A : Type 0} → (A → Type 0) → Result StartError A → Type 0
  Yields P (err e) = Unit
  Yields P (ok a) = P a

  Yields->>= :
      {A B : Type 0} (P : B → Type 0) (first : Result StartError A) (next : A → Result StartError B)
      → ((a : A) → first ≡ ok a → Yields P (next a))
      → Yields P (first >>= next)
  Yields->>= P (err e) next h = tt
  Yields->>= P (ok a) next h = h a refl

  tower-Starts : Yields (Starts tower) (tower_main platform)
  unfolding tower_main
  tower-Starts = Yields->>= _ (io_or_return (platform.bind localhost 8443)) _ (λ listener bound.
      Yields->>= _ (install_provider platform) _ (λ installed i.
        Yields->>= _ (io_or_return (sample_certs platform)) _ (λ certs c.
          Yields->>= _ (io_or_return (sample_key platform)) _ (λ key k.
            Yields->>= _ (io_or_return (other (platform.with_single_cert certs key))) _ (λ config s.
              (
                refl,
                (
                  certs,
                  key,
                  config,
                  io_or_return-ok _ _ c,
                  io_or_return-ok _ _ k,
                  other-ok _ _ (io_or_return-ok _ _ s),
                  refl,
                ),
              ))))))

  tonic-Starts : Yields (Starts tonic) (tonic_main platform)
  unfolding tonic_main
  tonic-Starts =
      Yields->>= _
        (or_return (platform.build_reflection (tonic_health ∷ tonic_types ∷ tonic_reflection ∷ [])))
        _
        (λ reflection r.
          Yields->>= _ (io_or_return (platform.bind localhost 8443)) _ (λ listener bound.
            Yields->>= _ (install_provider platform) _ (λ installed i.
              Yields->>= _ (io_or_return (sample_certs platform)) _ (λ certs c.
                Yields->>= _ (io_or_return (sample_key platform)) _ (λ key k.
                  Yields->>= _ (or_return (platform.with_single_cert certs key)) _ (λ config s. (
                    refl,
                    (
                      certs,
                      key,
                      config,
                      io_or_return-ok _ _ c,
                      io_or_return-ok _ _ k,
                      or_return-ok _ _ s,
                      refl,
                    ),
                  )))))))

  grpc_test-Starts : Yields (λ (at, d). Starts grpc_test d) (grpc_test_server platform)
  unfolding grpc_test_server
  grpc_test-Starts = Yields->>= _ (install_provider platform) _ (λ installed i.
      Yields->>= _ (io_or_return (platform.bind localhost 0)) _ (λ listener bound.
        Yields->>= _ (io_or_return (platform.local_addr listener)) _ (λ server_addr a.
          Yields->>= _ (io_or_return (sample_certs platform)) _ (λ certs c.
            Yields->>= _ (io_or_return (sample_key platform)) _ (λ key k.
              Yields->>= _ (or_return (platform.with_single_cert certs key)) _ (λ config s.
                Yields->>= _ (or_return (platform.build_reflection (tonic_health ∷ []))) _
                  (λ reflection r. (
                    refl,
                    (
                      certs,
                      key,
                      config,
                      io_or_return-ok _ _ c,
                      io_or_return-ok _ _ k,
                      or_return-ok _ _ s,
                      refl,
                    ),
                  ))))))))

  http_test-Starts : Yields (λ (at, d). Starts http_test d) (http_test_server platform)
  unfolding http_test_server
  http_test-Starts = Yields->>= _ (or_panic (platform.bind localhost 0)) _ (λ listener bound.
      Yields->>= _ (or_panic (platform.local_addr listener)) _ (λ server_addr a. (refl, refl)))

  -- Where the set-up of the TLS test server comes from the sample files.
  setup_test_tls_config-FromSample :
      Yields (λ config. FromSample tls_test (some config)) (setup_test_tls_config platform)
  unfolding setup_test_tls_config
  setup_test_tls_config-FromSample = Yields->>= _ (or_panic (sample_certs platform)) _ (λ certs c.
      Yields->>= _ (or_panic (sample_key platform)) _ (λ key k.
        configured certs key (or_panic-ok _ _ c) (or_panic-ok _ _ k)
          (platform.with_single_cert certs key) refl))
    where
      configured :
          (certs : List Cert) (key : Key)
          → sample_certs platform ≡ ok certs
          → sample_key platform ≡ ok key
          → (r : Result BoxError Config) → platform.with_single_cert certs key ≡ r
          → Yields (λ config. FromSample tls_test (some config)) (or_panic r)
      configured certs key c k (err e) s = tt
      configured certs key c k (ok config) s = (certs, key, config, c, k, s, refl)

  tls_test-Starts : Yields (λ (at, d). Starts tls_test d) (tls_test_server platform)
  unfolding tls_test_server
  tls_test-Starts = Yields->>= _ (or_panic (platform.bind localhost 0)) _ (λ listener bound.
      Yields->>= _ (or_panic (platform.local_addr listener)) _ (λ server_addr a.
        Yields->>= _ (setup_test_tls_config platform) _ (λ config s. (
          refl,
          subst (Yields (λ config'. FromSample tls_test (some config'))) s
              setup_test_tls_config-FromSample,
        ))))

  bench-Starts :
      (config : Config) → Yields (λ (at, d). Starts (bench config) d) (start_server platform config)
  unfolding start_server
  bench-Starts config =
      Yields->>= _ (io_or_return (setup_server platform)) _ (λ listening l. (refl, refl))

  deployed-Starts :
      (p : Program) (r : Result StartError (Address × Deployment platform))
      → Yields (λ (at, d). Starts p d) r
      → Yields (Starts p) (deployed r)
  deployed-Starts p (err e) h = tt
  deployed-Starts p (ok (at, d)) h = h

  deploy-Starts : (p : Program) → Yields (Starts p) (deploy p)
  unfolding deploy
  deploy-Starts tower = tower-Starts
  deploy-Starts tonic = tonic-Starts
  deploy-Starts grpc_test = deployed-Starts grpc_test _ grpc_test-Starts
  deploy-Starts http_test = deployed-Starts http_test _ http_test-Starts
  deploy-Starts tls_test = deployed-Starts tls_test _ tls_test-Starts
  deploy-Starts (bench config) = deployed-Starts (bench config) _ (bench-Starts config)

  -- A program that gets as far as its server gives it a shutdown signal. It gives it no TLS
  -- configuration if it is the plain test server, its own if it is the benchmark, and else one that was
  -- built from the sample certificates and the sample key, both of which it has loaded, with the
  -- protocols that the program sets.
  pub program_starts_secured :
      (p : Program) (d : Deployment platform)
      → deploy p ≡ ok d
      → (d.signal ≡ some platform.shutdown_rx) × HasTls p d.tls_config
  program_starts_secured p d h = subst (Yields (Starts p)) h (deploy-Starts p)
