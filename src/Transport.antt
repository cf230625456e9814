-- ===== src/Transport.antt =====
-- rust/client/src/transport.rs: the classification of transport failures that retry and fencing
-- decisions read. Messages are texts; what `format!` splices into a message is left out of it.
use chorus.Prelude.{ℕ, Bool, true, false, String}

pub data TransportCode : Type 0 where
  not_found already_exists invalid_argument failed_precondition aborted : TransportCode
  out_of_range resource_exhausted unimplemented data_loss ambiguous : TransportCode
  unauthenticated permission_denied unavailable deadline_exceeded internal : TransportCode

pub record TransportError : Type 0 where
  pub zone : ℕ
  pub code : TransportCode
  pub message : String

unfoldable pub transient : TransportCode → Bool
transient resource_exhausted = true
transient unavailable = true
transient deadline_exceeded = true
transient internal = true
transient _ = false

unfoldable pub fences_writer : TransportCode → Bool
fences_writer failed_precondition = true
fences_writer aborted = true
fences_writer _ = false
