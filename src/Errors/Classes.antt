-- ===== src/Errors/Classes.antt =====
-- How the classes of transport failures fit together.
use chorus.Prelude.{◌≡◌, refl, ◌↔◌, true, false, String, arith}
use chorus.Transport.{TransportCode, TransportError, transient, fences_writer}
use chorus.Errors.{
  ManifestStoreError, ProtocolError, may_have_committed, from_protocol, store_error, store_error_of,
}

-- A failure that may be retried never fences the writer.
pub transient-fences_writer :
    (code : TransportCode) → transient code ≡ true → fences_writer code ≡ false
unfolding transient fences_writer
transient-fences_writer code h = ground arith

-- Of the protocol's failures exactly these reach the caller as one after which the record may still
-- have committed: poisoning, a fence, a closed pipeline and a transport failure.
abbrev pub IsIndeterminate : ProtocolError → Type 0
IsIndeterminate ProtocolError.poisoned = Unit {0}
IsIndeterminate (ProtocolError.fenced _) = Unit {0}
IsIndeterminate ProtocolError.pipeline_closed = Unit {0}
IsIndeterminate (ProtocolError.transport _) = Unit {0}
IsIndeterminate _ = ⊥

pub may_have_committed-from_protocol :
    (e : ProtocolError) → (may_have_committed (from_protocol e) ≡ true) ↔ IsIndeterminate e
unfolding may_have_committed from_protocol
may_have_committed-from_protocol ProtocolError.poisoned = ((λ h. tt), λ h. refl)
may_have_committed-from_protocol (ProtocolError.fenced m) = ((λ h. tt), λ h. refl)
may_have_committed-from_protocol ProtocolError.pipeline_closed = ((λ h. tt), λ h. refl)
may_have_committed-from_protocol (ProtocolError.transport m) = ((λ h. tt), λ h. refl)
may_have_committed-from_protocol _ = ((λ h. cc), λ h. absurd h)

store_error_of-transient :
    (code : TransportCode) (m : String)
    → (store_error_of code m ≡ ManifestStoreError.unavailable m) ↔ (transient code ≡ true)
unfolding transient
store_error_of-transient TransportCode.failed_precondition m = ((λ h. cc), λ h. cc)
store_error_of-transient TransportCode.already_exists m = ((λ h. cc), λ h. cc)
store_error_of-transient _ m = ((λ h. ground arith), λ h. ground arith)

-- The register's store answers "unavailable", after which a request is tried again as it is, exactly
-- to the failures that the transport calls transient.
pub store_error-transient :
    (error : TransportError)
    → (store_error error ≡ ManifestStoreError.unavailable error.message)
      ↔ (transient error.code ≡ true)
unfolding store_error
store_error-transient error = store_error_of-transient error.code error.message
