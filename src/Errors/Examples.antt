-- ===== src/Errors/Examples.antt =====
-- The error theorems at concrete failures.
use chorus.Prelude.{◌≡◌, refl, ◌↔◌, true, false}
use chorus.Transport.{TransportCode, TransportError, transient, fences_writer}
use chorus.Errors.{
  ManifestStoreError, ProtocolError, may_have_committed, from_protocol, store_error,
}
use chorus.Errors.Classes.{
  transient-fences_writer, IsIndeterminate, may_have_committed-from_protocol, store_error-transient,
}

throttled : transient TransportCode.resource_exhausted ≡ true
unfolding transient
throttled = refl

transient-fences_writer_example : fences_writer TransportCode.resource_exhausted ≡ false
transient-fences_writer_example = transient-fences_writer TransportCode.resource_exhausted throttled

may_have_committed-from_protocol_example :
    (may_have_committed (from_protocol ProtocolError.no_quorum) ≡ true)
    ↔ IsIndeterminate ProtocolError.no_quorum
may_have_committed-from_protocol_example = may_have_committed-from_protocol ProtocolError.no_quorum

abbrev outage : TransportError
outage = record { zone = 1; code = TransportCode.unavailable; message = "zone is down" }

store_error-transient_example :
    (store_error outage ≡ ManifestStoreError.unavailable "zone is down")
    ↔ (transient outage.code ≡ true)
store_error-transient_example = store_error-transient outage
