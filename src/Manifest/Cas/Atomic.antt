-- ===== src/Manifest/Cas/Atomic.antt =====
-- Atomicity under interference: each write of this process replaces the very contents that its
-- transform was applied to, whatever other writers and the network do in between.
use chorus.Prelude.{ℕ, zero, suc, ◌≡◌, refl, [], All, Result, ok, err}
use chorus.Errors.{ManifestStoreError, ProtocolError}
use chorus.Errors.ManifestStoreError.{conflict, already_exists, unavailable, backend}
use chorus.Manifest.{ManifestRecord, validate}
use chorus.Manifest.Wire.{encode}
use chorus.Manifest.Store.{World, VersionedManifest, update}
use chorus.Manifest.Mutations.{CasTransform, done}
use chorus.Manifest.Cas.{
  max_cas_rounds, Manifest, Outcome, install_cache, refresh, after_refresh, after_update,
  write_next, apply_transform, cas_loop, cas_transform,
}
use chorus.Manifest.Cas.Known.{Knows, Justified, Sound}
use chorus.Manifest.Cas.Requests.{Stored, update-Stored}
use chorus.Manifest.Cas.Refresh.{Keeps, validated-Keeps, refresh-Keeps}

module _ {A : Type 0} (T : ManifestRecord → Result ProtocolError (CasTransform A)) where
  pub after_refresh-Keeps :
      (again : Manifest → World → Outcome A) (o : Outcome (Unit {0}))
      → Keeps T o
      → ((m : Manifest) (w : World) → Sound T m.version m.cached w → Keeps T (again m w))
      → Keeps T (after_refresh again o)
  unfolding after_refresh
  after_refresh-Keeps again (ok u, m, w) k next = next m w k
  after_refresh-Keeps again (err e, m, w) k next = k

  after_update-Keeps :
      (m : Manifest) (next : ManifestRecord) (value : A) (again : Manifest → World → Outcome A)
      (o : Result ManifestStoreError VersionedManifest × World)
      → Stored T m.version m.cached next o
      → ((m : Manifest) (w : World) → Sound T m.version m.cached w → Keeps T (again m w))
      → Keeps T (after_update m next value again o)
  unfolding after_update install_cache
  after_update-Keeps m next value again (ok state, w) k more = k.installed state refl
  after_update-Keeps m next value again (err conflict, w) k more =
      after_refresh-Keeps again (refresh m w) (refresh-Keeps T m w k.sound) more
  after_update-Keeps m next value again (err (unavailable message), w) k more =
      after_refresh-Keeps again (refresh m w) (refresh-Keeps T m w k.sound) more
  after_update-Keeps m next value again (err already_exists, w) k more = k.sound
  after_update-Keeps m next value again (err (backend message), w) k more = k.sound

  apply_transform-Keeps :
      (m : Manifest) (w : World) (again : Manifest → World → Outcome A)
      (d : Result ProtocolError (CasTransform A))
      → T m.cached ≡ d
      → Sound T m.version m.cached w
      → ((m : Manifest) (w : World) → Sound T m.version m.cached w → Keeps T (again m w))
      → Keeps T (apply_transform m w again d)
  unfolding apply_transform write_next
  apply_transform-Keeps m w again (err e) t s more = s
  apply_transform-Keeps m w again (ok (done value)) t s more = s
  apply_transform-Keeps m w again (ok (CasTransform.update next value)) t s more =
      validated-Keeps T m w (validate next) _ s λ valid.
        after_update-Keeps m next value again (update m.version (encode next) w)
          (update-Stored T m.version m.cached next value w t valid s) more

  pub cas_loop-Keeps :
      (rounds : ℕ) (exhausted : ProtocolError) (m : Manifest) (w : World)
      → Sound T m.version m.cached w
      → Keeps T (cas_loop rounds exhausted T m w)
  unfolding cas_loop
  cas_loop-Keeps zero exhausted m w s = s
  cas_loop-Keeps (suc rounds) exhausted m w s =
      apply_transform-Keeps m w (cas_loop rounds exhausted T) (T m.cached) refl s
        (cas_loop-Keeps rounds exhausted)

  -- Whatever other writers and the network do, every replacement of the register by
  -- `cas_transform` is of contents to which its transform was applied, by the valid record that the
  -- transform gave; and afterwards its cache is still either outdated by version or what the register
  -- holds. The premise says the same of the cache before the call.
  pub cas_transform_atomic :
      (exhausted : ProtocolError) (m : Manifest) (w : World)
      → Knows m.version m.cached w.register
      → w.writes ≡ []
      → let (result, m', w') = cas_transform exhausted T m w in
        All (Justified T) w'.writes × Knows m'.version m'.cached w'.register
  unfolding cas_transform
  cas_transform_atomic exhausted m w k empty =
      let s =
        cas_loop-Keeps max_cas_rounds exhausted m w
          (record { knows = k; justified = rw empty tt }) in
      (s.justified, s.knows)
