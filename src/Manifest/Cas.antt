-- ===== src/Manifest/Cas.antt =====
-- `Manifest` of manifest.rs: the process's view of the register, and the loop that applies a
-- transform to it by compare-and-swap.
pub mod Known
mod Requests
mod Refresh
pub mod Atomic
pub mod Writes
use chorus.Prelude.{
  ℕ, zero, suc, ◌+◌, ◌-◌, ◌*◌, ◌/◌, ◌%◌, ◌^◌, ◌≤◌, ◌<◌, min, max, ◌≡◌, refl, sym, ap, ◌∙◌, ◌≢◌, ◌↔◌,
  ◌⊎◌, inl, inr, Bool, true, false, not, ◌&&◌, ◌||◌, Option, none, some, List, [], ◌∷◌, ◌++◌, map,
  append_assoc, append-nil, String, arith, ltb, leb, ◌==◌, if◌then◌else◌, ltb→lt, lt→ltb, leb→le,
  le→leb, ==_iff, Bool-cases, Option-cases, u32_max, u64_max, checked_add, length, get_elem?, set,
  take, drop, All, length-append, length-drop, length-take, take-append-drop, take-append_left,
  drop-append_left, drop-nil, drop-drop, All-append, All-drop, Result, ok, err, ◌>>=◌, ◌>>◌, map_ok,
  >>=-eq-ok, Result-cases,
}
use chorus.Errors.{ManifestStoreError, ProtocolError}
use chorus.Errors.ManifestStoreError.{conflict, already_exists, unavailable, backend}
use chorus.Errors.ProtocolError.{invalid_manifest, fenced, manifest_unavailable, manifest_store}
use chorus.Text.{Text, text_eq}
use chorus.Manifest.{ManifestRecord, initial, reject, validate}
use chorus.Manifest.Wire.{Fields, encode, decode}
use chorus.Manifest.Store.{World, VersionedManifest, read, create, update}
use chorus.Manifest.Mutations.{
  CasTransform, done, Mutation, EmptyFrontier, PendingFold, registers_pending, replaces_frontier,
  folds_pending, removes_segments, raises_trunc, transform, claim,
}

-- `max_retries` is the client configuration's; the backoff between attempts has no effect here.
pub record Manifest : Type 0 where
  pub max_retries : ℕ
  pub owner : Text
  pub epoch : ℕ
  pub bucket_names : List Text
  pub max_directory_bytes : ℕ
  pub version : ℕ
  pub cached : ManifestRecord

-- What an operation leaves: its result, the handle and the world.
abbrev pub Outcome : Type 0 → Type 0
Outcome A = Result ProtocolError A × Manifest × World

unfoldable pub texts_eq : List Text → List Text → Bool
texts_eq [] [] = true
texts_eq (t ∷ ts) (u ∷ us) = text_eq t u && texts_eq ts us
texts_eq _ _ = false

unfoldable pub validate_configuration : List Text → ManifestRecord → Result ProtocolError (Unit {0})
unfolding texts_eq
validate_configuration bucket_names r = do
  reject (not (length r.buckets == length bucket_names))
      (invalid_manifest "manifest records another number of zonal buckets")
  reject (not (texts_eq r.buckets bucket_names)) (invalid_manifest "manifest records other buckets")

unfoldable pub install_cache : Manifest → ℕ → ManifestRecord → Manifest
install_cache m version r = record m { version = version; cached = r }

-- A state that was read, decoded and checked against the configuration.
unfoldable pub adopt : Manifest → VersionedManifest → Result ProtocolError Manifest
unfolding validate_configuration install_cache
adopt m state = do
  r ← decode state.fields
  validate_configuration m.bucket_names r
  ok (install_cache m state.version r)

abbrev pub adopted : Manifest → World → Result ProtocolError Manifest → Outcome (Unit {0})
adopted m w (ok m') = (ok tt, m', w)
adopted m w (err e) = (err e, m, w)

-- `validate()?` in front of what follows.
abbrev pub validated :
    {A : Type 0} → Manifest → World → Result ProtocolError (Unit {0}) → Outcome A → Outcome A
validated m w (err e) o = (err e, m, w)
validated m w (ok _) o = o

-- The arms of `refresh`; `retry` is the next attempt.
unfoldable pub after_create :
    Manifest
    → (World → Outcome (Unit {0}))
    → Result ManifestStoreError VersionedManifest × World
    → Outcome (Unit {0})
after_create m retry (ok state, w) =
    (ok tt, install_cache m state.version (initial m.bucket_names), w)
after_create m retry (err already_exists, w) = retry w
after_create m retry (err conflict, w) = retry w
after_create m retry (err (unavailable message), w) = retry w
after_create m retry (err (backend message), w) = (err (manifest_store (backend message)), m, w)

unfoldable pub create_missing : Manifest → (World → Outcome (Unit {0})) → World → Outcome (Unit {0})
unfolding after_create install_cache
create_missing m retry w =
    validated m w (validate (initial m.bucket_names))
      (after_create m retry (create (encode (initial m.bucket_names)) w))

unfoldable pub after_read :
    Manifest
    → (World → Outcome (Unit {0}))
    → Result ManifestStoreError (Option VersionedManifest) × World
    → Outcome (Unit {0})
unfolding adopt create_missing
after_read m retry (ok (some state), w) = adopted m w (adopt m state)
after_read m retry (ok none, w) = create_missing m retry w
after_read m retry (err (unavailable message), w) = retry w
after_read m retry (err e, w) = (err (manifest_store e), m, w)

unfoldable pub refresh_loop : ℕ → Manifest → World → Outcome (Unit {0})
unfolding after_read
refresh_loop zero m w = (err manifest_unavailable, m, w)
refresh_loop (suc attempts) m w = after_read m (refresh_loop attempts m) (read w)

-- Attempts 0 to `max_retries`.
unfoldable pub refresh : Manifest → World → Outcome (Unit {0})
unfolding refresh_loop
refresh m w = refresh_loop (m.max_retries + 1) m w

abbrev pub max_cas_rounds : ℕ
max_cas_rounds = 16

-- Another round, once the register has been read again.
unfoldable pub after_refresh :
    {A : Type 0} → (Manifest → World → Outcome A) → Outcome (Unit {0}) → Outcome A
after_refresh again (ok _, m, w) = again m w
after_refresh again (err e, m, w) = (err e, m, w)

-- What follows the guarded write of `next`.
unfoldable pub after_update :
    {A : Type 0}
    → Manifest
    → ManifestRecord
    → A
    → (Manifest → World → Outcome A)
    → Result ManifestStoreError VersionedManifest × World
    → Outcome A
unfolding install_cache refresh after_refresh
after_update m next value again (ok state, w) = (ok value, install_cache m state.version next, w)
after_update m next value again (err conflict, w) = after_refresh again (refresh m w)
after_update m next value again (err (unavailable message), w) = after_refresh again (refresh m w)
after_update m next value again (err e, w) = (err (manifest_store e), m, w)

unfoldable pub write_next :
    {A : Type 0}
    → Manifest
    → World
    → ManifestRecord
    → A
    → (Manifest → World → Outcome A)
    → Outcome A
unfolding after_update
write_next m w next value again =
    validated m w (validate next)
      (after_update m next value again (update m.version (encode next) w))

unfoldable pub apply_transform :
    {A : Type 0}
    → Manifest
    → World
    → (Manifest → World → Outcome A)
    → Result ProtocolError (CasTransform A)
    → Outcome A
unfolding write_next
apply_transform m w again (err e) = (err e, m, w)
apply_transform m w again (ok (done value)) = (ok value, m, w)
apply_transform m w again (ok (CasTransform.update next value)) = write_next m w next value again

unfoldable pub cas_loop :
    {A : Type 0}
    → ℕ
    → ProtocolError
    → (ManifestRecord → Result ProtocolError (CasTransform A))
    → Manifest
    → World
    → Outcome A
cas_loop zero exhausted transform m w = (err exhausted, m, w)
cas_loop (suc rounds) exhausted transform m w =
    apply_transform m w (cas_loop rounds exhausted transform) (transform m.cached)

unfoldable pub cas_transform :
    {A : Type 0}
    → ProtocolError
    → (ManifestRecord → Result ProtocolError (CasTransform A))
    → Manifest
    → World
    → Outcome A
cas_transform exhausted transform m w = cas_loop max_cas_rounds exhausted transform m w

abbrev pub claimed : Outcome ℕ → Outcome (Unit {0})
claimed (ok candidate, m, w) = (ok tt, record m { epoch = candidate }, w)
claimed (err e, m, w) = (err e, m, w)

-- `Manifest::claim`
unfoldable pub claim_epoch : Manifest → World → Outcome (Unit {0})
claim_epoch m w = claimed (
    cas_transform (fenced "manifest epoch claim did not converge under contention") (claim m.owner)
      m w)

-- A mutator behind its early return or claim check, and the loop.
unfoldable pub mutate : Mutation → Manifest → World → Outcome (Unit {0})
mutate (removes_segments [] floor) m w = (ok tt, m, w)
mutate (removes_segments (id ∷ ids) floor) m w =
    cas_transform manifest_unavailable (transform (removes_segments (id ∷ ids) floor)) m w
mutate (raises_trunc epoch owner floor) m w =
    after_refresh (cas_transform manifest_unavailable (transform (raises_trunc epoch owner floor)))
      (refresh m w)
mutate mutation m w =
    if m.epoch == 0
    then (err (fenced "manifest mutation without a claim"), m, w)
    else cas_transform manifest_unavailable (transform mutation) m w

-- The public methods; `raise_trunc` alone is handed the claim that it acts under.
pub data Request : Type 0 where
  register_pending : Text → Request
  replace_empty_frontier : EmptyFrontier → Request
  fold_pending : PendingFold → Request
  raise_trunc : ℕ → Text → ℕ → Request
  remove_segments : List Text → ℕ → Request

unfoldable pub mutation_of : Manifest → Request → Mutation
mutation_of m (register_pending pending_id) = registers_pending m.epoch m.owner pending_id
mutation_of m (replace_empty_frontier f) = replaces_frontier m.epoch m.owner f
mutation_of m (fold_pending f) = folds_pending m.epoch m.owner m.max_directory_bytes f
mutation_of m (raise_trunc epoch owner floor) = raises_trunc epoch owner floor
mutation_of m (remove_segments ids floor) = removes_segments ids floor

unfoldable pub handle : Request → Manifest → World → Outcome (Unit {0})
handle request m w = mutate (mutation_of m request) m w
