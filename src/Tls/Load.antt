-- ===== src/Tls/Load.antt =====
-- src/tls.rs: `load_certs` and `load_private_key`.
use hyper_server.Prelude.{
  ok-of->>=, ap, ◌∙◌, ◌≡◌, ◌↔◌, String, Result, ok, err, ◌>>=◌, Option, none, some, List, [], ◌∷◌,
  ◌++◌, map, refl, arith,
}
use hyper_server.Errors.{IoError, io_error, ErrorKind, message}

-- `Iterator::collect` into a `Result<Vec<_>, _>`: the first error ends it.
unfoldable pub collect {ℓ κ} : {A : Type ℓ} {E : Type κ} → List (Result E A) → Result E (List A)
collect [] = ok []
collect (ok a ∷ rs) = do rest ← collect rs; ok (a ∷ rest)
collect (err e ∷ rs) = err e

-- `.ok_or_else(|| io::Error::new(..))`
unfoldable pub ok_or_missing {ℓ} : {Key : Type ℓ} → Option Key → Result IoError Key
ok_or_missing none = err (io_error ErrorKind.invalid_data (message "No private key found in file"))
ok_or_missing (some key) = ok key

ok_or_missing-ok {ℓ} :
    {Key : Type ℓ} (found : Option Key) (key : Key)
    → ok_or_missing found ≡ ok key
    → found ≡ some key
unfolding ok_or_missing
ok_or_missing-ok found key h = ground arith

-- `fs::File::open` and the parsers of `rustls_pemfile` are parameters: `certs` gives the results of
-- its iterator, `private_key` the first key of the file if it has one.
module _ {ℓ κ} {File : Type ℓ} {Item : Type κ} (open_file : String → Result IoError File) where
  unfoldable pub load_certs :
      (File → List (Result IoError Item)) → String → Result IoError (List Item)
  load_certs certs filename = do certfile ← open_file filename; collect (certs certfile)

  unfoldable pub load_private_key :
      (File → Result IoError (Option Item)) → String → Result IoError Item
  unfolding ok_or_missing
  load_private_key private_key filename = do
    keyfile ← open_file filename
    found ← private_key keyfile
    ok_or_missing found

module _ {ℓ κ} {A : Type ℓ} {E : Type κ} where
  pub collect-map_ok : (xs : List A) → collect {E = E} (map ok xs) ≡ ok xs
  unfolding collect
  collect-map_ok [] = refl
  collect-map_ok (x ∷ xs) = rw (collect-map_ok xs)

  -- A collected list has all the items, and there was no error among them.
  pub eq_map_ok_of_collect :
      (rs : List (Result E A)) (xs : List A) → collect rs ≡ ok xs → rs ≡ map ok xs
  unfolding collect
  eq_map_ok_of_collect [] xs h = ground arith
  eq_map_ok_of_collect (ok x ∷ rs) xs h = go (collect rs) h (eq_map_ok_of_collect rs)
    where
      go :
          (r : Result E (List A))
          → (r >>= λ rest. ok (x ∷ rest)) ≡ ok xs
          → ((ys : List A) → r ≡ ok ys → rs ≡ map ok ys)
          → ok x ∷ rs ≡ map ok xs
      go (ok ys) h' ih = ground (arith, ih ys refl)
      go (err e) h' ih = cc
  eq_map_ok_of_collect (err e ∷ rs) xs h = cc

  -- The first error is the result, whatever follows it.
  pub collect-error :
      (xs : List A) (e : E) (rs : List (Result E A)) → collect (map ok xs ++ err e ∷ rs) ≡ err e
  unfolding collect
  collect-error [] e rs = refl
  collect-error (x ∷ xs) e rs = rw (collect-error xs e rs)

module _ {ℓ κ} {File : Type ℓ} {Item : Type κ} (open_file : String → Result IoError File) where
  -- The certificates are loaded exactly when the file opens and no entry of it is an error, and then
  -- they are the entries in order.
  pub load_certs-ok_iff :
      (certs : File → List (Result IoError Item)) (filename : String) (loaded : List Item)
      → (load_certs open_file certs filename ≡ ok loaded) ↔ (
          (certfile : File) × (open_file filename ≡ ok certfile) × (certs certfile ≡ map ok loaded))
  unfolding load_certs
  load_certs-ok_iff certs filename loaded = (
    λ h.
        let (certfile, opened, got) = ok-of->>= _ (open_file filename) loaded h in
        (certfile, opened, eq_map_ok_of_collect (certs certfile) loaded got),
    λ (certfile, opened, entries). rw (opened, entries) (collect-map_ok loaded),
  )

  -- A key is loaded exactly when the file opens and its first key parses, and then it is that key: a
  -- file without a key is an error.
  pub load_private_key-ok_iff :
      (private_key : File → Result IoError (Option Item)) (filename : String) (key : Item)
      → (load_private_key open_file private_key filename ≡ ok key) ↔ (
          (keyfile : File) × (open_file filename ≡ ok keyfile)
          × (private_key keyfile ≡ ok (some key)))
  unfolding load_private_key
  load_private_key-ok_iff private_key filename key = (
    λ h.
        let (keyfile, opened, parsed) = ok-of->>= _ (open_file filename) key h in
        let (found, e, one) = ok-of->>= _ (private_key keyfile) key parsed in
        (keyfile, opened, e ∙ ap ok (ok_or_missing-ok found key one)),
    λ (keyfile, opened, e). rw (opened, e),
  )
