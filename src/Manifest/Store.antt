-- ===== src/Manifest/Store.antt =====
-- rust/client/src/manifest_store.rs: the compare-and-swap register, as its in-memory
-- implementation keeps it, with an environment. Before each request other processes may write the
-- register, and a request may fail before it is applied or lose its response after. Versions are
-- unbounded numbers.
use chorus.Prelude.{
  ℕ, ◌+◌, Option, none, some, List, [], ◌∷◌, ◌++◌, ◌==◌, if◌then◌else◌, Result, ok, err,
}
use chorus.Errors.{ManifestStoreError}
use chorus.Errors.ManifestStoreError.{conflict, already_exists, unavailable, backend}
use chorus.Manifest.Wire.{Fields}

pub record VersionedManifest : Type 0 where
  pub version : ℕ
  pub fields : Fields

pub data Delivery : Type 0 where
  delivered : Delivery
  never_sent : Delivery
  response_lost : Delivery

pub record Event : Type 0 where
  pub others : List Fields
  pub delivery : Delivery

-- One replacement of the register by this process: what it replaced, and what it wrote. To create the
-- register's first record replaces nothing, and is none.
pub record Write : Type 0 where
  pub before : Fields
  pub after : Fields

pub record World : Type 0 where
  pub register : Option VersionedManifest
  pub script : List Event
  pub writes : List Write

abbrev pub overwrite : Fields → Option VersionedManifest → Option VersionedManifest
overwrite fields none = some (record { version = 1; fields = fields })
overwrite fields (some v) = some (record { version = v.version + 1; fields = fields })

unfoldable pub interfere : List Fields → Option VersionedManifest → Option VersionedManifest
interfere [] register = register
interfere (fields ∷ others) register = interfere others (overwrite fields register)

-- The next request: what others write first, and how the request fares. An exhausted script is a
-- quiet environment.
abbrev pub arrive_at : List Event → World → Delivery × World
arrive_at [] w = (delivered, w)
arrive_at (event ∷ script) w =
    (event.delivery, record w { register = interfere event.others w.register; script = script })

unfoldable pub arrive : World → Delivery × World
unfolding interfere
arrive w = arrive_at w.script w

-- What comes back of a request that the store answers.
abbrev pub respond {ℓ} :
    {A : Type ℓ} → Delivery → Result ManifestStoreError A → Result ManifestStoreError A
respond delivered r = r
respond never_sent r = err (unavailable "request was not sent")
respond response_lost r = err (unavailable "response was lost")

unfoldable pub read : World → Result ManifestStoreError (Option VersionedManifest) × World
unfolding arrive
read w = let (delivery, w') = arrive w in (respond delivery (ok w'.register), w')

abbrev pub create_at :
    Fields → Option VersionedManifest → World → Result ManifestStoreError VersionedManifest × World
create_at fields none w =
    let v : VersionedManifest = record { version = 1; fields = fields } in
    (ok v, record w { register = some v })
create_at fields (some v) w = (err already_exists, w)

-- A request that was not sent has no effect; one whose response is lost has.
abbrev pub deliver {ℓ} :
    {A : Type ℓ}
    → Delivery
    → World
    → Result ManifestStoreError A × World
    → Result ManifestStoreError A × World
deliver delivered w (r, w') = (r, w')
deliver never_sent w (r, w') = (respond never_sent r, w)
deliver response_lost w (r, w') = (respond response_lost r, w')

unfoldable pub create : Fields → World → Result ManifestStoreError VersionedManifest × World
unfolding arrive
create fields w =
    let (delivery, w') = arrive w in deliver delivery w' (create_at fields w'.register w')

abbrev pub update_at :
    ℕ
    → Fields
    → Option VersionedManifest
    → World
    → Result ManifestStoreError VersionedManifest × World
update_at version fields none w = (err (backend "the register was never created"), w)
update_at version fields (some current) w =
    if current.version == version
    then (let v : VersionedManifest = record { version = current.version + 1; fields = fields } in
        (
          ok v,
          record w {
            register = some v;
            writes = w.writes ++ (record { before = current.fields; after = fields } ∷ []);
          },
        ))
    else (err conflict, w)

unfoldable pub update : ℕ → Fields → World → Result ManifestStoreError VersionedManifest × World
unfolding arrive
update version fields w =
    let (delivery, w') = arrive w in deliver delivery w' (update_at version fields w'.register w')
