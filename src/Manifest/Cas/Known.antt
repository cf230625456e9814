-- ===== src/Manifest/Cas/Known.antt =====
-- What a process knows of the register, and how interference by other writers leaves it.
use chorus.Prelude.{
  ℕ, ◌≤◌, ◌<◌, ◌≡◌, ◌⊎◌, inl, inr, Option, none, some, List, [], ◌∷◌, arith, All, Result, ok,
}
use chorus.Errors.{ProtocolError}
use chorus.Manifest.{ManifestRecord, validate}
use chorus.Manifest.Wire.{Fields, encode, decode}
use chorus.Manifest.Store.{
  arrive_at, Event, World, VersionedManifest, Write, overwrite, interfere, arrive,
}
use chorus.Manifest.Mutations.{CasTransform}

-- Fields that stand for a valid record: they decode to it, or are its encoding.
abbrev pub Represents : Fields → ManifestRecord → Type 0
Represents fields r = (validate r ≡ ok tt) × ((decode fields ≡ ok r) ⊎ (fields ≡ encode r))

-- What a process that has `r` at a version knows of the register: either the register has moved on,
-- or it still holds `r`.
abbrev pub Knows : ℕ → ManifestRecord → Option VersionedManifest → Type 0
Knows version r none = version ≡ 0
Knows version r (some v) =
    (1 ≤ v.version) × ((version < v.version) ⊎ ((version ≡ v.version) × Represents v.fields r))

-- A write that is one application of the transform to what it replaced.
pub record Justified {A : Type 0}
    (transform : ManifestRecord → Result ProtocolError (CasTransform A)) (write : Write)
    : Type 0 where
  pub old : ManifestRecord
  pub new : ManifestRecord
  pub value : A
  pub replaced : Represents write.before old
  pub decided : transform old ≡ ok (CasTransform.update new value)
  pub accepted : validate new ≡ ok tt
  pub written : write.after ≡ encode new

overwrite-Knows :
    (version : ℕ) (r : ManifestRecord) (fields : Fields) (register : Option VersionedManifest)
    → Knows version r register
    → Knows version r (overwrite fields register)
overwrite-Knows version r fields none k = (omega arith, inl (omega arith))
overwrite-Knows version r fields (some v) (live, inl older) = (omega arith, inl (omega arith))
overwrite-Knows version r fields (some v) (live, inr (same, rep)) = (omega arith, inl (omega arith))

pub interfere-Knows :
    (version : ℕ) (r : ManifestRecord) (others : List Fields) (register : Option VersionedManifest)
    → Knows version r register
    → Knows version r (interfere others register)
unfolding interfere
interfere-Knows version r [] register k = k
interfere-Knows version r (fields ∷ others) register k =
    interfere-Knows version r others (overwrite fields register)
      (overwrite-Knows version r fields register k)

module _ {A : Type 0} (T : ManifestRecord → Result ProtocolError (CasTransform A)) (version : ℕ)
    (r : ManifestRecord) where
  -- The register is as known, and all writes so far are justified.
  pub record Sound (w : World) : Type 0 where
    pub knows : Knows version r w.register
    pub justified : All (Justified T) w.writes

module _ {A : Type 0} (T : ManifestRecord → Result ProtocolError (CasTransform A)) (version : ℕ)
    (r : ManifestRecord) where
  arrive_at-Sound :
      (script : List Event) (w : World)
      → Sound T version r w
      → Sound T version r (arrive_at script w).1
  arrive_at-Sound [] w s = s
  arrive_at-Sound (event ∷ script) w s = record {
    knows = interfere-Knows version r event.others w.register s.knows;
    justified = s.justified;
  }

  pub arrive-Sound : (w : World) → Sound T version r w → Sound T version r (arrive w).1
  unfolding arrive
  arrive-Sound w s = arrive_at-Sound w.script w s
