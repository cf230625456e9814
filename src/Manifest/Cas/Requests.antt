-- ===== src/Manifest/Cas/Requests.antt =====
-- The store's three requests, answered, unsent or with their response lost.
use chorus.Prelude.{
  ℕ, ◌+◌, ◌≤◌, ◌≡◌, refl, inl, inr, Option, none, some, List, [], ◌∷◌, ◌++◌, arith, ◌==◌, ==_iff,
  Bool-cases, All, All-append, Result, ok,
}
use chorus.Errors.{ManifestStoreError, ProtocolError}
use chorus.Manifest.{ManifestRecord, validate}
use chorus.Manifest.Wire.{encode}
use chorus.Manifest.Store.{
  World, VersionedManifest, Write, Delivery, delivered, never_sent, response_lost, arrive, read,
  create, update, respond, deliver, create_at, update_at,
}
use chorus.Manifest.Mutations.{CasTransform}
use chorus.Manifest.Cas.Known.{Represents, Knows, Justified, Sound, arrive-Sound}

module _ {A : Type 0} (T : ManifestRecord → Result ProtocolError (CasTransform A)) (version : ℕ)
    (r : ManifestRecord) where
  -- The outcome of a request that stores a record: what was known stays true, and on success the
  -- record is known at the version that came back.
  pub record Stored (next : ManifestRecord)
      (o : Result ManifestStoreError VersionedManifest × World) : Type 0 where
    pub sound : Sound T version r o.1
    pub installed : (state : VersionedManifest) → o.0 ≡ ok state → Sound T state.version next o.1

  deliver-Stored :
      (next : ManifestRecord) (d : Delivery) (w : World)
      (o : Result ManifestStoreError VersionedManifest × World)
      → Sound T version r w
      → Stored next o
      → Stored next (deliver d w o)
  deliver-Stored next delivered w (a, w') s k = k
  deliver-Stored next never_sent w (a, w') s k = record { sound = s; installed = λ state e. cc }
  deliver-Stored next response_lost w (a, w') s k = record {
    sound = k.sound;
    installed = λ state e. cc;
  }

  -- A register that has just been given the encoding of `next` is known to hold it.
  installed_at :
      {next : ManifestRecord} (v : ℕ) (state : VersionedManifest) (w : World) (writes : List Write)
      → 1 ≤ v
      → validate next ≡ ok tt
      → record { version = v; fields = encode next } ≡ state
      → All (Justified T) writes
      → Sound T state.version next (record w {
        register = some (record { version = v; fields = encode next });
        writes = writes;
      })
  installed_at v state w writes live valid same j =
      rw (← same) (record { knows = (live, inr (refl, (valid, inr refl))); justified = j })

  held_contents :
      (current : VersionedManifest)
      → current.version ≡ version
      → Knows version r (some current)
      → Represents current.fields r
  held_contents current same (live, inl older) = absurd (omega arith)
  held_contents current same (live, inr (_, rep)) = rep

  create_at-Stored :
      (next : ManifestRecord) (register : Option VersionedManifest) (w : World)
      → validate next ≡ ok tt
      → w.register ≡ register
      → Sound T version r w
      → Stored next (create_at (encode next) register w)
  create_at-Stored next (some v) w valid e s = record { sound = s; installed = λ state h. cc }
  create_at-Stored next none w valid e s =
      let fresh : version ≡ 0 = rw e at s.knows in
      record {
        sound = record { knows = (omega arith, inl (omega arith)); justified = s.justified };
        installed = λ state h. installed_at 1 state w w.writes (omega arith) valid (cc) s.justified;
      }

  update_at-Stored :
      (next : ManifestRecord) (value : A) (register : Option VersionedManifest) (w : World)
      → T r ≡ ok (CasTransform.update next value)
      → validate next ≡ ok tt
      → w.register ≡ register
      → Sound T version r w
      → Stored next (update_at version (encode next) register w)
  update_at-Stored next value none w t v e s = record { sound = s; installed = λ state h. cc }
  update_at-Stored next value (some current) w t v e s =
      elim (Bool-cases (current.version == version)) [
        | inr moved ↦ rw moved (record { sound = s; installed = λ state h. cc })
        | inl same ↦
            let at : current.version ≡ version = (==_iff current.version version).0 same in
            let known : Knows version r (some current) = rw e at s.knows in
            let write : Write = record { before = current.fields; after = encode next } in
            let j : Justified T write = record {
              old = r;
              new = next;
              value = value;
              replaced = held_contents current at known;
              decided = t;
              accepted = v;
              written = refl;
            } in
            let all = All-append (Justified T) w.writes (write ∷ []) s.justified (j, tt) in
            rw same (record {
              sound = record { knows = (omega arith, inl (omega arith)); justified = all };
              installed = λ state h.
                  installed_at (current.version + 1) state w (w.writes ++ (write ∷ []))
                    (omega arith) v (cc) all;
            })
      ]

  pub update-Stored :
      (next : ManifestRecord) (value : A) (w : World)
      → T r ≡ ok (CasTransform.update next value)
      → validate next ≡ ok tt
      → Sound T version r w
      → Stored next (update version (encode next) w)
  unfolding update
  update-Stored next value w t v s =
      let w' = (arrive w).1 in
      let s' : Sound T version r w' = arrive-Sound T version r w s in
      deliver-Stored next (arrive w).0 w' (update_at version (encode next) w'.register w') s'
        (update_at-Stored next value w'.register w' t v refl s')

  pub create-Stored :
      (next : ManifestRecord) (w : World)
      → validate next ≡ ok tt
      → Sound T version r w
      → Stored next (create (encode next) w)
  unfolding create
  create-Stored next w valid s =
      let w' = (arrive w).1 in
      let s' : Sound T version r w' = arrive-Sound T version r w s in
      deliver-Stored next (arrive w).0 w' (create_at (encode next) w'.register w') s'
        (create_at-Stored next w'.register w' valid refl s')

  -- A read that succeeds shows the register as it then is.
  pub record Seen (o : Result ManifestStoreError (Option VersionedManifest) × World) : Type 0 where
    pub sound : Sound T version r o.1
    pub shown : (state : VersionedManifest) → o.0 ≡ ok (some state) → o.1.register ≡ some state

  respond-shown :
      (d : Delivery) (w : World) (state : VersionedManifest)
      → respond d (ok w.register) ≡ ok (some state)
      → w.register ≡ some state
  respond-shown delivered w state h = ground arith
  respond-shown never_sent w state h = cc
  respond-shown response_lost w state h = cc

  pub read-Seen : (w : World) → Sound T version r w → Seen (read w)
  unfolding read
  read-Seen w s = record {
    sound = arrive-Sound T version r w s;
    shown = λ state h. respond-shown (arrive w).0 (arrive w).1 state h;
  }
