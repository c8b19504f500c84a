-- ===== src/Errors/Accept.antt =====
-- src/error.rs: `handle_accept_error`, which tells the accept errors that end nothing from the rest.
use hyper_server.Prelude.{◌≡◌, ◌↔◌, ◌⊎◌, refl, Bool, true, false, if◌then◌else◌, arith}
use hyper_server.Errors.{ErrorKind, BoxError, io, server, foreign, io_error, Payload}

-- `std::ops::ControlFlow<B, ()>`
pub data ControlFlow {ℓ} (B : Type ℓ) : Type ℓ where
  continues : ControlFlow B
  breaks : B → ControlFlow B

-- The `matches!` on the kind.
unfoldable pub is_non_fatal : ErrorKind → Bool
is_non_fatal ErrorKind.connection_aborted = true
is_non_fatal ErrorKind.interrupted = true
is_non_fatal ErrorKind.invalid_data = true
is_non_fatal ErrorKind.would_block = true
is_non_fatal _ = false

-- After the conversion: `downcast_ref::<io::Error>()` looks at the outermost type only.
unfoldable pub classify : BoxError → ControlFlow BoxError
unfolding is_non_fatal
classify (io (io_error kind payload)) =
    if is_non_fatal kind then continues else breaks (io (io_error kind payload))
classify (server e) = breaks (server e)
classify (foreign id) = breaks (foreign id)

-- `handle_accept_error`, with the conversion `Into<TransportError>` of the caller's error type.
unfoldable pub handle_accept_error {ℓ} : {E : Type ℓ} → (E → BoxError) → E → ControlFlow BoxError
unfolding classify
handle_accept_error into e = classify (into e)

-- The kinds that the function's documentation lists as non-fatal.
abbrev pub DocumentedNonFatal : ErrorKind → Type 0
DocumentedNonFatal kind =
    (kind ≡ ErrorKind.connection_aborted)
    ⊎ (kind ≡ ErrorKind.interrupted)
    ⊎ (kind ≡ ErrorKind.invalid_data)
    ⊎ (kind ≡ ErrorKind.would_block)

is_non_fatal_iff : (kind : ErrorKind) → (is_non_fatal kind ≡ true) ↔ DocumentedNonFatal kind
unfolding is_non_fatal
is_non_fatal_iff kind = ground arith

abbrev pub IsNonFatalIo : BoxError → Type 0
IsNonFatalIo b =
    (kind : ErrorKind) × (payload : Payload) × (b ≡ io (io_error kind payload))
    × DocumentedNonFatal kind

classify-continues : (b : BoxError) → classify b ≡ continues → IsNonFatalIo b
unfolding classify
classify-continues (io (io_error kind payload)) h =
    (kind, payload, refl, (is_non_fatal_iff kind).0 (ground arith))
classify-continues (server e) h = cc
classify-continues (foreign id) h = cc

module _ {ℓ} {E : Type ℓ} (into : E → BoxError) (e : E) where
  -- `handle_accept_error` returns `Continue` exactly when the converted error is an I/O error, outermost,
  -- of one of the kinds that its documentation lists.
  pub handle_accept_error-continues_iff :
      (handle_accept_error into e ≡ continues) ↔ IsNonFatalIo (into e)
  unfolding handle_accept_error
  handle_accept_error-continues_iff = (
    classify-continues (into e),
    λ (kind, payload, shape, listed). rw (shape, (is_non_fatal_iff kind).1 listed) refl,
  )

  -- What is fatal is handed back as it was converted.
  pub handle_accept_error-breaks :
      (b : BoxError) → handle_accept_error into e ≡ breaks b → b ≡ into e
  unfolding handle_accept_error
  handle_accept_error-breaks b h = ground arith

  -- Asked again about what it handed back, the loop decides the same.
  pub classify-breaks :
      (b : BoxError) → handle_accept_error into e ≡ breaks b → classify b ≡ breaks b
  unfolding handle_accept_error
  classify-breaks b h = cc (handle_accept_error-breaks b h)

-- A conversion that is the identity, as that of a `TransportError`.
pub handle_accept_error-same :
    (b : BoxError) → classify b ≡ breaks b → handle_accept_error (λ x. x) b ≡ breaks b
unfolding handle_accept_error
handle_accept_error-same b h = h
