-- ===== src/Manifest/Cas/Refresh.antt =====
-- Reading the register again (`refresh`) keeps what is known.
use chorus.Prelude.{
  ℕ, zero, suc, ◌+◌, ◌≤◌, ◌≡◌, refl, inl, inr, Option, none, some, Result, ok, err, >>=-eq-ok,
  Result-cases,
}
use chorus.Errors.{ManifestStoreError, ProtocolError}
use chorus.Errors.ManifestStoreError.{conflict, already_exists, unavailable, backend}
use chorus.Manifest.{ManifestRecord, initial, validate}
use chorus.Manifest.Wire.{Fields, encode, decode, decode_fields}
use chorus.Manifest.Store.{World, VersionedManifest, read, create}
use chorus.Manifest.Mutations.{CasTransform}
use chorus.Manifest.Cas.{
  validated, validate_configuration, Manifest, Outcome, adopt, adopted, install_cache, after_create,
  create_missing, after_read, refresh_loop, refresh,
}
use chorus.Manifest.Cas.Known.{Sound}
use chorus.Manifest.Cas.Requests.{Stored, Seen, create-Stored, read-Seen}

pub decode-valid :
    (fields : Fields) (r : ManifestRecord) → decode fields ≡ ok r → validate r ≡ ok tt
unfolding decode
decode-valid fields r h =
    let (r', _, h1) = >>=-eq-ok (decode_fields fields) _ h in
    let (u, valid, h2) = >>=-eq-ok (validate r') (λ _. ok r') h1 in
    let e : r' ≡ r = cc in rw (← e) valid

module _ {A : Type 0} (T : ManifestRecord → Result ProtocolError (CasTransform A)) where
  abbrev pub Keeps : {B : Type 0} → Outcome B → Type 0
  Keeps (result, m, w) = Sound T m.version m.cached w

  -- Contents that were just read and decoded are known at their version.
  adopt-Sound :
      (m m' : Manifest) (w : World) (state : VersionedManifest)
      → Sound T m.version m.cached w
      → w.register ≡ some state
      → adopt m state ≡ ok m'
      → Sound T m'.version m'.cached w
  unfolding adopt install_cache
  adopt-Sound m m' w state s shown h =
      let (rec, decoded, h1) = >>=-eq-ok (decode state.fields) _ h in
      let (_, _, h2) = >>=-eq-ok (validate_configuration m.bucket_names rec) _ h1 in
      let live : 1 ≤ state.version = (rw shown at s.knows).0 in
      let e : install_cache m state.version rec ≡ m' = cc in
      rw (← e) (record {
        knows = rw shown (live, inr (refl, (decode-valid state.fields rec decoded, inl decoded)));
        justified = s.justified;
      })

  adopted-Keeps :
      (m : Manifest) (w : World) (state : VersionedManifest)
      → Sound T m.version m.cached w
      → w.register ≡ some state
      → Keeps (adopted m w (adopt m state))
  adopted-Keeps m w state s shown = elim (Result-cases (adopt m state)) [
    | inr (e, h) ↦ rw h s
    | inl (m', h) ↦ rw h (adopt-Sound m m' w state s shown h)
  ]

  pub validated-Keeps :
      {B : Type 0} (m : Manifest) (w : World) (v : Result ProtocolError (Unit {0})) (o : Outcome B)
      → Sound T m.version m.cached w
      → (v ≡ ok tt → Keeps o)
      → Keeps (validated m w v o)
  validated-Keeps m w (err e) o s k = s
  validated-Keeps m w (ok u) o s k = k refl

  after_create-Keeps :
      (m : Manifest) (retry : World → Outcome (Unit {0}))
      (o : Result ManifestStoreError VersionedManifest × World)
      → Stored T m.version m.cached (initial m.bucket_names) o
      → ((w : World) → Sound T m.version m.cached w → Keeps (retry w))
      → Keeps (after_create m retry o)
  unfolding after_create install_cache
  after_create-Keeps m retry (ok state, w) k again = k.installed state refl
  after_create-Keeps m retry (err already_exists, w) k again = again w k.sound
  after_create-Keeps m retry (err conflict, w) k again = again w k.sound
  after_create-Keeps m retry (err (unavailable message), w) k again = again w k.sound
  after_create-Keeps m retry (err (backend message), w) k again = k.sound

  create_missing-Keeps :
      (m : Manifest) (retry : World → Outcome (Unit {0})) (w : World)
      → Sound T m.version m.cached w
      → ((w : World) → Sound T m.version m.cached w → Keeps (retry w))
      → Keeps (create_missing m retry w)
  unfolding create_missing
  create_missing-Keeps m retry w s again =
      validated-Keeps m w (validate (initial m.bucket_names)) _ s λ valid.
        after_create-Keeps m retry (create (encode (initial m.bucket_names)) w)
          (create-Stored T m.version m.cached (initial m.bucket_names) w valid s) again

  after_read-Keeps :
      (m : Manifest) (retry : World → Outcome (Unit {0}))
      (o : Result ManifestStoreError (Option VersionedManifest) × World)
      → Seen T m.version m.cached o
      → ((w : World) → Sound T m.version m.cached w → Keeps (retry w))
      → Keeps (after_read m retry o)
  unfolding after_read
  after_read-Keeps m retry (ok (some state), w) k again =
      adopted-Keeps m w state k.sound (k.shown state refl)
  after_read-Keeps m retry (ok none, w) k again = create_missing-Keeps m retry w k.sound again
  after_read-Keeps m retry (err (unavailable message), w) k again = again w k.sound
  after_read-Keeps m retry (err conflict, w) k again = k.sound
  after_read-Keeps m retry (err already_exists, w) k again = k.sound
  after_read-Keeps m retry (err (backend message), w) k again = k.sound

  refresh_loop-Keeps :
      (attempts : ℕ) (m : Manifest) (w : World)
      → Sound T m.version m.cached w
      → Keeps (refresh_loop attempts m w)
  unfolding refresh_loop
  refresh_loop-Keeps zero m w s = s
  refresh_loop-Keeps (suc attempts) m w s =
      after_read-Keeps m (refresh_loop attempts m) (read w) (read-Seen T m.version m.cached w s)
        (refresh_loop-Keeps attempts m)

  pub refresh-Keeps :
      (m : Manifest) (w : World) → Sound T m.version m.cached w → Keeps (refresh m w)
  unfolding refresh
  refresh-Keeps m w s = refresh_loop-Keeps (m.max_retries + 1) m w s
