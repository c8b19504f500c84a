-- ===== src/Errors/Sources.antt =====
-- src/error.rs: what the constructors and accessors of `Error` promise together.
use hyper_server.Prelude.{◌≡◌, refl, ◌↔◌, Option, none, some, List, [], ◌∷◌}
use hyper_server.Errors.{
  Kind, transport, BoxError, Error, error_impl, source_of, no_source, new, with_source, from_source,
  description, display, source,
}

-- A chain of calls of `with`.
abbrev chain : Error → List BoxError → Error
chain e [] = e
chain e (cause ∷ causes) = chain (with_source e cause) causes

-- The last of a list, if it has one.
abbrev last_of : Option BoxError → List BoxError → Option BoxError
last_of latest [] = latest
last_of latest (cause ∷ causes) = last_of (some cause) causes

source-chain_from :
    (e : Error) (causes : List BoxError) → source (chain e causes) ≡ last_of (source e) causes
unfolding source with_source
source-chain_from e [] = refl
source-chain_from (error_impl k s) (cause ∷ causes) =
    source-chain_from (error_impl k (source_of cause)) causes

display-chain_from : (e f : Error) (causes : List BoxError) → display (chain e causes) ≡ display f
unfolding display description with_source
display-chain_from (error_impl transport s) (error_impl transport s') [] = refl
display-chain_from (error_impl transport s) f (cause ∷ causes) =
    display-chain_from (error_impl transport (source_of cause)) f causes

-- An error built by `new` and a chain of calls of `with` has the cause of the last call as its source,
-- and none without a call. What it displays does not depend on the causes.
source-chain :
    (kind : Kind) (causes : List BoxError)
    → (source (chain (new kind) causes) ≡ last_of none causes)
      × (display (chain (new kind) causes) ≡ display (new kind))
unfolding source new
source-chain kind causes =
    (source-chain_from (new kind) causes, display-chain_from (new kind) (new kind) causes)

-- `from_source` and `source` are inverse to each other: an error has a source exactly when it is what
-- `from_source` makes of that source, as there is one kind.
pub source-from_source :
    (e : Error) (cause : BoxError) → (source e ≡ some cause) ↔ (e ≡ from_source cause)
unfolding source from_source new with_source
source-from_source (error_impl transport no_source) cause = (λ h. cc, λ h. cc)
source-from_source (error_impl transport (source_of c)) cause = (λ h. cc, λ h. cc)
