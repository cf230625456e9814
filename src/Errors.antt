-- ===== src/Errors.antt =====
-- rust/client/src/error.rs, and the error types of protocol.rs and manifest_store.rs. A message is
-- a text with the fixed part of the source's message; spliced values are left out.
mod Examples
pub mod Classes
use chorus.Prelude.{ℕ, Bool, true, false, String, if◌then◌else◌}
use chorus.Record.{RecordError}
use chorus.Transport.{TransportCode, TransportError, transient}

pub data ManifestStoreError : Type 0 where
  conflict : ManifestStoreError
  already_exists : ManifestStoreError
  unavailable : String → ManifestStoreError
  backend : String → ManifestStoreError

pub data ProtocolError : Type 0 where
  replica_count : ProtocolError
  no_quorum : ProtocolError
  poisoned : ProtocolError
  fenced : String → ProtocolError
  conflicting_prefix : ℕ → ProtocolError
  recovery_prefix_too_short : ℕ → ℕ → ProtocolError
  seal_digest_mismatch : String → String → ProtocolError
  seal_crc32c_mismatch : ℕ → ℕ → ProtocolError
  invalid_manifest : String → ProtocolError
  segment_directory_full : ProtocolError
  manifest_store : ManifestStoreError → ProtocolError
  manifest_unavailable : ProtocolError
  pipeline_closed : ProtocolError
  finalized : ProtocolError
  record_error : RecordError → ProtocolError
  transport : TransportError → ProtocolError

-- `WalSeqNo` is its record index, `Duration` its nanoseconds.
pub data Error : Type 0 where
  closed : Error
  shutdown_timeout : ℕ → Error
  connection : String → Error
  token_source : String → Error
  uninitialized : Error
  invalid_token : Error
  invalid_refresh_interval : Error
  invalid_config : String → Error
  no_read_quorum : Error
  no_quorum : Error
  invalid_catalog : String → Error
  checkpoint_regression : ℕ → ℕ → Error
  read_only_lagged : ℕ → ℕ → Error
  invalid_segment_data : String → Error
  conflicting_prefix : ℕ → Error
  recovery_prefix_too_short : ℕ → ℕ → Error
  seal_digest_mismatch : String → String → Error
  seal_crc32c_mismatch : ℕ → ℕ → Error
  invalid_manifest : String → Error
  segment_directory_full : Error
  manifest_unavailable : Error
  manifest_store : ManifestStoreError → Error
  pipeline_closed : Error
  finalized : Error
  internal : String → Error
  poisoned : Error
  fenced : String → Error
  out_of_order : ℕ → ℕ → Error
  record_too_large : ℕ → ℕ → Error
  active_segment_full : ℕ → ℕ → ℕ → Error
  sequence_exhausted : Error
  recovery_incomplete : Error
  transport : ℕ → TransportCode → String → Error

unfoldable pub may_have_committed : Error → Bool
may_have_committed closed = true
may_have_committed (internal _) = true
may_have_committed poisoned = true
may_have_committed (fenced _) = true
may_have_committed pipeline_closed = true
may_have_committed (transport _ _ _) = true
may_have_committed _ = false

-- `to_string` of a record error.
abbrev pub record_message : RecordError → String
record_message RecordError.truncated = "truncated record"
record_message (RecordError.invalid_length _) = "invalid record length"
record_message RecordError.too_large = "record exceeds u32 bytes"

unfoldable pub from_transport : TransportError → Error
from_transport error = Error.transport error.zone error.code error.message

unfoldable pub from_record : RecordError → Error
from_record error = invalid_segment_data (record_message error)

unfoldable pub from_protocol : ProtocolError → Error
unfolding from_transport from_record
from_protocol replica_count = invalid_config "replica count must be 1, 3, or 5"
from_protocol ProtocolError.no_quorum = Error.no_quorum
from_protocol ProtocolError.poisoned = Error.poisoned
from_protocol (ProtocolError.fenced message) = Error.fenced message
from_protocol (ProtocolError.conflicting_prefix index) = Error.conflicting_prefix index
from_protocol (ProtocolError.recovery_prefix_too_short expected actual) =
    Error.recovery_prefix_too_short expected actual
from_protocol (ProtocolError.seal_digest_mismatch expected actual) =
    Error.seal_digest_mismatch expected actual
from_protocol (ProtocolError.seal_crc32c_mismatch expected actual) =
    Error.seal_crc32c_mismatch expected actual
from_protocol (ProtocolError.invalid_manifest message) = Error.invalid_manifest message
from_protocol ProtocolError.segment_directory_full = Error.segment_directory_full
from_protocol (ProtocolError.manifest_store error) = Error.manifest_store error
from_protocol ProtocolError.manifest_unavailable = Error.manifest_unavailable
from_protocol ProtocolError.pipeline_closed = Error.pipeline_closed
from_protocol ProtocolError.finalized = Error.finalized
from_protocol (record_error error) = from_record error
from_protocol (ProtocolError.transport error) = from_transport error

-- `store_error` of manifest_store.rs, by the code; the message of the source's `to_string` is the
-- error's own.
abbrev pub store_error_of : TransportCode → String → ManifestStoreError
store_error_of TransportCode.failed_precondition message = conflict
store_error_of TransportCode.already_exists message = ManifestStoreError.already_exists
store_error_of code message =
    if transient code then ManifestStoreError.unavailable message else backend message

unfoldable pub store_error : TransportError → ManifestStoreError
unfolding transient
store_error error = store_error_of error.code error.message
