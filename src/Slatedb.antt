-- ===== src/Slatedb.antt =====
-- rust/client/src/slatedb.rs and slatedb/: what the adapter of an external database is made of. The
-- types of that database are here as the adapter constructs and takes them apart; its methods on a
-- value are arguments.
pub mod Codec
pub mod RoundTrip
pub mod Batch
pub mod Retention
pub mod Progress
pub mod Observer
mod Examples
use chorus.Errors.{
  Error, read_only_lagged, invalid_catalog, invalid_segment_data, invalid_config, out_of_order,
  record_too_large, sequence_exhausted, recovery_incomplete, internal,
}
use chorus.Prelude.{
  ℕ, zero, suc, ◌+◌, ◌-◌, ◌*◌, ◌/◌, ◌%◌, ◌^◌, ◌≤◌, ◌<◌, min, max, ◌≡◌, refl, sym, ap, ◌∙◌, ◌≢◌, ◌↔◌,
  ◌⊎◌, inl, inr, Bool, true, false, not, ◌&&◌, ◌||◌, Option, none, some, List, [], ◌∷◌, ◌++◌, map,
  append_assoc, append-nil, String, arith, ltb, leb, ◌==◌, if◌then◌else◌, ltb→lt, lt→ltb, leb→le,
  le→leb, ==_iff, Bool-cases, Option-cases, u32_max, u64_max, checked_add, length, get_elem?, set,
  take, drop, All, length-append, length-drop, length-take, take-append-drop, take-append_left,
  drop-append_left, drop-nil, drop-drop, All-append, All-drop, Result, ok, err, ◌>>=◌, ◌>>◌, map_ok,
  >>=-eq-ok, Result-cases, ok-injective, reject,
}
use chorus.Prelude.Int.{ℤ}

-- What an error of the database wraps: a message, or an error of this library.
pub data Cause : Type 0 where
  other : String → Cause
  wrapped : Error → Cause

pub data WalError : Type 0 where
  fenced : WalError
  closed : WalError
  wal_truncated : ℕ → WalError
  data_cause : Cause → WalError
  internal_cause : Cause → WalError
  unavailable : Cause → WalError

abbrev pub internal_error : String → WalError
internal_error message = internal_cause (other message)

abbrev pub data_error : String → WalError
data_error message = data_cause (other message)

unfoldable pub wal_error : Error → WalError
wal_error (Error.fenced _) = fenced
wal_error Error.closed = closed
wal_error (read_only_lagged next earliest) = wal_truncated (min (next + 1) u64_max)
wal_error (invalid_catalog m) = data_cause (wrapped (invalid_catalog m))
wal_error (invalid_segment_data m) = data_cause (wrapped (invalid_segment_data m))
wal_error (Error.invalid_manifest m) = data_cause (wrapped (Error.invalid_manifest m))
wal_error (Error.conflicting_prefix i) = data_cause (wrapped (Error.conflicting_prefix i))
wal_error (Error.recovery_prefix_too_short e a) =
    data_cause (wrapped (Error.recovery_prefix_too_short e a))
wal_error (Error.seal_digest_mismatch e a) = data_cause (wrapped (Error.seal_digest_mismatch e a))
wal_error (Error.seal_crc32c_mismatch e a) = data_cause (wrapped (Error.seal_crc32c_mismatch e a))
wal_error (invalid_config m) = internal_cause (wrapped (invalid_config m))
wal_error (out_of_order e a) = internal_cause (wrapped (out_of_order e a))
wal_error (record_too_large m a) = internal_cause (wrapped (record_too_large m a))
wal_error sequence_exhausted = internal_cause (wrapped sequence_exhausted)
wal_error recovery_incomplete = internal_cause (wrapped recovery_incomplete)
wal_error (internal m) = internal_cause (wrapped (internal m))
wal_error error = unavailable (wrapped error)

pub data ValueDeletable : Type 0 where
  value : List ℕ → ValueDeletable
  merge : List ℕ → ValueDeletable
  tombstone : ValueDeletable

pub record RowEntry : Type 0 where
  pub key : List ℕ
  pub value : ValueDeletable
  pub seq : ℕ
  pub create_ts : Option ℤ
  pub expire_ts : Option ℤ

-- The methods of a value that the adapter calls.
pub record ValueMethods : Type 0 where
  pub len : ValueDeletable → ℕ
  pub as_bytes : ValueDeletable → Option (List ℕ)
  pub is_tombstone : ValueDeletable → Bool

-- What is documented of them.
pub record Documented (methods : ValueMethods) : Type 0 where
  pub bytes_value : (b : List ℕ) → methods.as_bytes (ValueDeletable.value b) ≡ some b
  pub bytes_merge : (b : List ℕ) → methods.as_bytes (merge b) ≡ some b
  pub bytes_tombstone : methods.as_bytes tombstone ≡ none
  pub len_value : (b : List ℕ) → methods.len (ValueDeletable.value b) ≡ length b
  pub len_merge : (b : List ℕ) → methods.len (merge b) ≡ length b
  pub len_tombstone : methods.len tombstone ≡ 0
  pub tombstone_value : (b : List ℕ) → methods.is_tombstone (ValueDeletable.value b) ≡ false
  pub tombstone_merge : (b : List ℕ) → methods.is_tombstone (merge b) ≡ false
  pub tombstone_tombstone : methods.is_tombstone tombstone ≡ true
