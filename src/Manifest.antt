-- ===== src/Manifest.antt =====
-- rust/client/src/manifest.rs: the control register's contents and what `validate` accepts. The
-- children model the mutators, the compare-and-swap loop over the store, and the wire format.
pub mod Valid
pub mod Mutations
pub mod Wire
pub mod Store
pub mod Cas
mod Examples
pub use chorus.Prelude.{is_some, reject}
use chorus.Prelude.{
  ℕ, ◌+◌, ◌<◌, List, [], ◌∷◌, ◌++◌, Option, none, some, Bool, true, false, not, ◌&&◌, ◌||◌, ltb,
  leb, ◌==◌, if◌then◌else◌, length, Result, ok, err, ◌>>=◌, ◌>>◌,
}
use chorus.Errors.{ProtocolError}
use chorus.Errors.ProtocolError.{invalid_manifest}
use chorus.Text.{Text, text_eq, option_eq, contains_byte, contains, is_empty}

pub record DirectoryEntry : Type 0 where
  pub id : Text
  pub base : ℕ
  pub crc32c : ℕ

pub record ManifestRecord : Type 0 where
  pub epoch : ℕ
  pub owner : Text
  pub tail_base : ℕ
  pub tail_id : Option Text
  pub pending_id : Option Text
  pub seal_base : Option ℕ
  pub seal_id : Option Text
  pub seal_digest : Option Text
  pub trunc : ℕ
  pub segments : List DirectoryEntry
  pub buckets : List Text

unfoldable pub initial : List Text → ManifestRecord
initial buckets = record {
  epoch = 0;
  owner = [];
  tail_base = 0;
  tail_id = none;
  pending_id = none;
  seal_base = none;
  seal_id = none;
  seal_digest = none;
  trunc = 0;
  segments = [];
  buckets = buckets;
}

-- `is_some_and` and `is_some_and(|x| ids.contains(x))`
abbrev pub some_and {ℓ} : {A : Type ℓ} → Option A → (A → Bool) → Bool
some_and none p = false
some_and (some a) p = p a

abbrev pub nat_option_eq : Option ℕ → Option ℕ → Bool
nat_option_eq none none = true
nat_option_eq (some a) (some b) = a == b
nat_option_eq _ _ = false

abbrev pub last? {ℓ} : {A : Type ℓ} → List A → Option A
last? [] = none
last? (x ∷ []) = some x
last? (x ∷ y ∷ xs) = last? (y ∷ xs)

-- `SUPPORTED_REPLICA_COUNTS` is 1, 3 and 5.
abbrev pub supported_count : ℕ → Bool
supported_count n = (n == 1) || (n == 3) || (n == 5)

unfoldable pub check_names : List Text → List Text → Result ProtocolError (Unit {0})
check_names unique [] = ok tt
check_names unique (bucket ∷ buckets) = do
  reject (is_empty bucket || contains_byte b',' bucket) (invalid_manifest "invalid bucket name")
  reject (contains unique bucket) (invalid_manifest "chorus.buckets repeats bucket")
  check_names (bucket ∷ unique) buckets

unfoldable pub validate_bucket_names : List Text → Result ProtocolError (Unit {0})
unfolding check_names
validate_bucket_names buckets = do
  reject (length buckets == 0) (invalid_manifest "chorus.buckets must not be empty")
  reject (not (supported_count (length buckets)))
      (invalid_manifest "chorus.buckets has unsupported replica count; expected 1, 3, or 5")
  check_names [] buckets

-- The loop over the directory; it returns the set of ids that it has collected.
unfoldable pub check_segments :
    ℕ → List Text → Option ℕ → List DirectoryEntry → Result ProtocolError (List Text)
check_segments tail_base ids previous_base [] = ok ids
check_segments tail_base ids previous_base (entry ∷ segments) = do
  reject (some_and previous_base (λ base. leb entry.base base))
      (invalid_manifest "chorus.segments bases must be strictly increasing")
  reject (leb tail_base entry.base)
      (invalid_manifest "chorus.segments entry has base at or past chorus.tail_base")
  reject (contains ids entry.id) (invalid_manifest "chorus.segments repeats segment id")
  check_segments tail_base (entry.id ∷ ids) (some entry.base) segments

unfoldable pub check_pending :
    Option Text → Option Text → List Text → Result ProtocolError (Unit {0})
check_pending none tail_id ids = ok tt
check_pending (some pending_id) tail_id ids = do
  reject (is_empty pending_id || contains_byte b':' pending_id || contains_byte b',' pending_id)
      (invalid_manifest "invalid chorus.pending_id")
  reject (option_eq tail_id (some pending_id))
      (invalid_manifest "chorus.pending_id collides with chorus.tail_id")
  reject (contains ids pending_id)
      (invalid_manifest "chorus.pending_id collides with a sealed segment id")

-- The base that follows an entry: the next entry's, or the tail's.
abbrev pub next_base : ℕ → List DirectoryEntry → ℕ
next_base tail_base [] = tail_base
next_base tail_base (next ∷ segments) = next.base

-- Whether the seal record names the last entry of the directory.
abbrev pub seal_names : Option Text → Option ℕ → Option DirectoryEntry → Bool
seal_names seal_id seal_base none = true
seal_names seal_id seal_base (some last) =
    option_eq seal_id (some last.id) && nat_option_eq seal_base (some last.base)

unfoldable pub validate : ManifestRecord → Result ProtocolError (Unit {0})
unfolding check_segments check_pending validate_bucket_names
validate r = do
  reject
      (not (is_some r.seal_base) && is_some r.seal_digest
        || is_some r.seal_base && not (is_some r.seal_digest))
      (invalid_manifest "seal_base and seal_digest must appear together")
  reject (ltb 0 r.epoch && not (is_some r.tail_id))
      (invalid_manifest "chorus.tail_id must be present once chorus.epoch is nonzero")
  ids ← check_segments r.tail_base [] none r.segments
  reject (some_and r.tail_id (λ tail_id. contains ids tail_id))
      (invalid_manifest "chorus.tail_id collides with a sealed segment id")
  check_pending r.pending_id r.tail_id ids
  reject (ltb r.trunc r.tail_base && not (seal_names r.seal_id r.seal_base (last? r.segments)))
      (invalid_manifest "chorus.segments ends with an entry but the seal record names another")
  validate_bucket_names r.buckets
