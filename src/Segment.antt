-- ===== src/Segment.antt =====
-- rust/client/src/segment.rs: what a reader makes of the register and of a segment's frames. Spliced
-- values are left out of messages.
pub mod Readonly
pub mod ActiveRead
mod Examples
use chorus.Prelude.{
  ℕ, zero, suc, ◌+◌, ◌-◌, ◌*◌, ◌/◌, ◌%◌, ◌^◌, ◌≤◌, ◌<◌, min, max, ◌≡◌, refl, sym, ap, ◌∙◌, ◌≢◌, ◌↔◌,
  ◌⊎◌, inl, inr, Bool, true, false, not, ◌&&◌, ◌||◌, Option, none, some, List, [], ◌∷◌, ◌++◌, map,
  append_assoc, append-nil, String, arith, ltb, leb, ◌==◌, if◌then◌else◌, ltb→lt, lt→ltb, leb→le,
  le→leb, ==_iff, Bool-cases, Option-cases, u32_max, u64_max, checked_add, length, get_elem?, set,
  take, drop, All, length-append, length-drop, length-take, take-append-drop, take-append_left,
  drop-append_left, drop-nil, drop-drop, All-append, All-drop, Result, ok, err, ◌>>=◌, ◌>>◌, map_ok,
  >>=-eq-ok, Result-cases,
}
use chorus.Record.{RecordFrame}
use chorus.Text.{Text, option_eq}
use chorus.Transport.{TransportCode, TransportError}
use chorus.Errors.{Error}
use chorus.Manifest.{ManifestRecord, DirectoryEntry, next_base}

pub record SegmentDescriptor : Type 0 where
  pub id : Text
  pub base_record_index : ℕ
  pub end_record_index : ℕ
  pub crc32c : ℕ
  pub copies : ℕ
  pub finalized_copies : ℕ
  pub seal_pending : Bool

-- `WalSeqNo` is its record index.
pub record WalRecord : Type 0 where
  pub seqno : ℕ
  pub payload : List ℕ

-- An addition of `u64`.
abbrev pub wrapping_add : ℕ → ℕ → ℕ
wrapping_add a b = (a + b) % (u64_max + 1)

unfoldable pub replay_from : ℕ → ℕ → List RecordFrame → ℕ → ℕ → List WalRecord
replay_from base offset [] from end = []
replay_from base offset (frame ∷ frames) from end =
    let record_index = wrapping_add base offset in
    let rest = replay_from base (offset + 1) frames from end in
    if ltb record_index from || leb end record_index
    then rest
    else record { seqno = record_index; payload = frame.payload } ∷ rest

unfoldable pub replay_records :
    SegmentDescriptor → List RecordFrame → ℕ → ℕ → Result Error (List WalRecord)
unfolding replay_from
replay_records segment frames from end =
    ok (replay_from segment.base_record_index 0 frames from end)

unfoldable pub check_readonly_floor : ManifestRecord → ℕ → Result Error (Unit {0})
check_readonly_floor r next =
    if ltb next r.trunc then err (Error.read_only_lagged next r.trunc) else ok tt

-- The end of an entry that `next_base` follows.
unfoldable pub end_of : ℕ → ℕ → Result Error ℕ
end_of base zero = err (Error.invalid_catalog "cannot derive an end for readonly segment")
end_of base (suc end) =
    if ltb end base
    then err (Error.invalid_catalog "readonly segment extends past following base")
    else ok end

abbrev pub describe : Option Text → DirectoryEntry → ℕ → SegmentDescriptor
describe seal_id entry end_record_index = record {
  id = entry.id;
  base_record_index = entry.base;
  end_record_index = end_record_index;
  crc32c = entry.crc32c;
  copies = 0;
  finalized_copies = 0;
  seal_pending = option_eq seal_id (some entry.id);
}

unfoldable pub describe_all :
    Option Text → ℕ → List DirectoryEntry → Result Error (List SegmentDescriptor)
unfolding end_of
describe_all seal_id tail_base [] = ok []
describe_all seal_id tail_base (entry ∷ segments) = do
  end ← end_of entry.base (next_base tail_base segments)
  rest ← describe_all seal_id tail_base segments
  ok (describe seal_id entry end ∷ rest)

unfoldable pub readonly_segments : ManifestRecord → Result Error (List SegmentDescriptor)
unfolding describe_all
readonly_segments r = describe_all r.seal_id r.tail_base r.segments

unfoldable pub permanent_read_code : TransportCode → Bool
permanent_read_code TransportCode.permission_denied = true
permanent_read_code TransportCode.unauthenticated = true
permanent_read_code TransportCode.invalid_argument = true
permanent_read_code _ = false

abbrev pub transport_of : ℕ × TransportError → Error
transport_of (zone, error) = Error.transport zone error.code error.message

abbrev pub first_of : List (ℕ × TransportError) → Option Error
first_of [] = none
first_of (failure ∷ failures) = some (transport_of failure)

unfoldable pub quorum_impossible_error : ℕ → ℕ → List (ℕ × TransportError) → Option Error
quorum_impossible_error replica_count quorum permanent =
    if leb quorum (replica_count - length permanent) then none else first_of permanent

pub data ActiveReadObservation : Type 0 where
  pending : ActiveReadObservation
  records : List RecordFrame → ActiveReadObservation
  failed : Option TransportError → ActiveReadObservation

-- The permanent failures, each with its zone.
unfoldable pub permanent_failures : ℕ → List ActiveReadObservation → List (ℕ × TransportError)
permanent_failures zone [] = []
permanent_failures zone (failed (some error) ∷ observations) =
    let rest = permanent_failures (zone + 1) observations in
    if permanent_read_code error.code then (zone, error) ∷ rest else rest
permanent_failures zone (_ ∷ observations) = permanent_failures (zone + 1) observations

unfoldable pub permanent_active_read_failure : List ActiveReadObservation → ℕ → Option Error
unfolding quorum_impossible_error permanent_failures
permanent_active_read_failure observations quorum =
    quorum_impossible_error (length observations) quorum (permanent_failures 0 observations)
