-- ===== src/Segment/Examples.antt =====
-- Concrete reads of rust/client/src/segment.rs: a directory of two segments, and a segment of three
-- frames.
use chorus.Prelude.{ℕ, ◌≡◌, refl, false, none, some, List, [], ◌∷◌, arith, ok}
use chorus.Segment.{ActiveReadObservation}
use chorus.Segment.ActiveRead.{
  ActiveReadDecision, active_read_decision, decide, after_round, tally, cast, find_quorum, stop,
}
use chorus.Segment.ActiveRead.Decision.{
  Agreed, active_read_decision-Agreed, Rounds, active_read_decision-Rounds,
}
use chorus.Record.{encode, encoded_len, RecordFrame}
use chorus.Text.{contains, contains_byte, text_eq}
use chorus.Manifest.{ManifestRecord, validate}
use chorus.Segment.{
  ActiveReadObservation, replay_from, readonly_segments, replay_records, SegmentDescriptor,
}
use chorus.Segment.Readonly.{window, replay_records-window, readonly_segments-Describes, Describes}

abbrev frame : ℕ → RecordFrame
frame n = record { payload = n ∷ [] }

abbrev three_frames : List RecordFrame
three_frames = frame 7 ∷ frame 8 ∷ frame 9 ∷ []

abbrev from_ten : SegmentDescriptor
from_ten = record {
  id = b'a' ∷ [];
  base_record_index = 10;
  end_record_index = 12;
  crc32c = 5;
  copies = 0;
  finalized_copies = 0;
  seal_pending = false;
}

replay_records-window_example :
    replay_records from_ten three_frames 11 12 ≡ ok (window 10 three_frames 11 12)
replay_records-window_example = replay_records-window from_ten three_frames 11 12 (omega arith)

replay_test :
    replay_records from_ten three_frames 11 12 ≡ ok (record { seqno = 11; payload = 8 ∷ [] } ∷ [])
unfolding replay_records replay_from
replay_test = refl

abbrev two_segments : ManifestRecord
two_segments = record {
  epoch = 1;
  owner = b'w' ∷ [];
  tail_base = 9;
  tail_id = some (b't' ∷ []);
  pending_id = none;
  seal_base = some 4;
  seal_id = some (b'b' ∷ []);
  seal_digest = some (b'd' ∷ []);
  trunc = 0;
  segments =
      record { id = b'a' ∷ []; base = 0; crc32c = 1 }
      ∷ record { id = b'b' ∷ []; base = 4; crc32c = 2 }
      ∷ [];
  buckets = (b'x' ∷ []) ∷ [];
}

two_segments_valid : validate two_segments ≡ ok tt
unfolding validate contains contains_byte text_eq
two_segments_valid = refl

readonly_segments-Describes_example :
    (ds : List SegmentDescriptor) × (readonly_segments two_segments ≡ ok ds)
    × Describes two_segments.seal_id 9 two_segments.segments ds
readonly_segments-Describes_example = readonly_segments-Describes two_segments two_segments_valid

abbrev two_replicas : List ActiveReadObservation
two_replicas =
    ActiveReadObservation.records (frame 7 ∷ frame 8 ∷ [])
    ∷ ActiveReadObservation.records (frame 7 ∷ [])
    ∷ ActiveReadObservation.pending
    ∷ []

decision_test : active_read_decision two_replicas 2 ≡ ok (ActiveReadDecision.frames (frame 7 ∷ []))
unfolding active_read_decision decide after_round tally cast find_quorum stop encode encoded_len
    text_eq
decision_test = refl

active_read_decision-Agreed_example : Agreed two_replicas 2 0 (frame 7 ∷ [])
active_read_decision-Agreed_example =
    active_read_decision-Agreed two_replicas 2 (frame 7 ∷ []) decision_test

active_read_decision-Rounds_example :
    Rounds two_replicas 2 0 [] (active_read_decision two_replicas 2)
active_read_decision-Rounds_example = active_read_decision-Rounds two_replicas 2
