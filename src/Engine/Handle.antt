-- ===== src/Engine/Handle.antt =====
-- `WalHandle::enqueue_inner` of rust/client/src/engine.rs: the admission of one record. Waiting for
-- the semaphores of tokio is an argument, whether both permits were granted; one that is cancelled
-- while it waits has changed nothing. Byte counts are 128-bit numbers.
use mathlib.Core.Path.{subst}
use chorus.Prelude.{
  ℕ, ◌+◌, ◌-◌, ◌≤◌, ◌≡◌, refl, ◌≢◌, Bool, false, not, List, [], ◌∷◌, ◌++◌, arith, ltb, leb, ◌==◌,
  if◌then◌else◌, u32_max, u64_max, length, Result, ok, err, ◌>>=◌, ◌>>◌, >>=-eq-ok, ok-injective,
  reject,
}
use chorus.Record.{RecordFrame, encoded_len}
use chorus.Errors.{Error}
use chorus.Engine.{header_len, append, AdmittedAppend, Receiver}

pub record ActiveSegmentCapacity : Type 0 where
  pub admission_start_bytes : ℕ
  pub existing_bytes : ℕ
  pub seal_room : Bool

pub record WalHandle : Type 0 where
  pub next_seqno : ℕ
  pub max_active_segment_bytes : ℕ
  pub total_admitted_bytes : ℕ

abbrev pub u128_max : ℕ
u128_max = 340282366920938463463374607431768211455

abbrev checked_add_u128 : Error → ℕ → ℕ → Result Error ℕ
checked_add_u128 error a b = if leb (a + b) u128_max then ok (a + b) else err error

abbrev checked_sub_u128 : Error → ℕ → ℕ → Result Error ℕ
checked_sub_u128 error a b = if leb b a then ok (a - b) else err error

abbrev max_payload_bytes : ℕ
max_payload_bytes = 4294967291

abbrev usize_or_max : ℕ → ℕ
usize_or_max n = if leb n u64_max then n else u64_max

-- The guards on the order of sequence numbers.
unfoldable pub check_seqno : Bool → ℕ → ℕ → Result Error (Unit {0})
check_seqno closed next_seqno seqno = do
  reject closed Error.closed
  reject (not (seqno == next_seqno)) (Error.out_of_order next_seqno seqno)
  reject (seqno == u64_max) Error.sequence_exhausted

-- The bytes that the active segment would hold with the record.
unfoldable pub check_capacity : WalHandle → ActiveSegmentCapacity → ℕ → Result Error (Unit {0})
check_capacity handle capacity encoded_bytes = do
  reject (not capacity.seal_room) Error.segment_directory_full
  admitted_here ←
      checked_sub_u128
        (Error.internal "active-segment admission boundary exceeds total admitted bytes")
        handle.total_admitted_bytes capacity.admission_start_bytes
  current_active ←
      checked_add_u128 (Error.internal "active-segment byte accounting overflowed")
        capacity.existing_bytes admitted_here
  projected ←
      checked_add_u128 (Error.internal "active-segment byte accounting overflowed") current_active
        encoded_bytes
  reject (ltb handle.max_active_segment_bytes projected) (
      Error.active_segment_full handle.max_active_segment_bytes (usize_or_max current_active)
        encoded_bytes)

abbrev frame_len : RecordFrame → Result Error ℕ
frame_len frame = elim (encoded_len frame) [
  | ok n ↦ ok n
  | err e ↦ err (Error.record_too_large max_payload_bytes (length frame.payload))
]

-- The cumulative bytes after the record.
unfoldable pub sum_up : WalHandle → ℕ → Result Error ℕ
sum_up handle encoded = do
  admission_end_bytes ←
      checked_add_u128 (Error.internal "cumulative admission bytes overflowed")
        handle.total_admitted_bytes encoded
  reject (ltb u32_max encoded) (Error.internal "encoded record length exceeds u32")
  ok admission_end_bytes

abbrev pub admit : ℕ → List ℕ → WalHandle → Receiver → ℕ → WalHandle × Receiver
admit seqno payload handle rx admission_end_bytes = (
  record handle { next_seqno = handle.next_seqno + 1; total_admitted_bytes = admission_end_bytes },
  record rx {
    commands =
        rx.commands
        ++ (append (record {
          seqno = seqno;
          frame = record { payload = payload };
          payload_bytes = length payload;
          admission_end_bytes = admission_end_bytes;
        })
            ∷ []);
  },
)

unfoldable pub enqueue_inner :
    ℕ
    → List ℕ
    → ActiveSegmentCapacity
    → Bool
    → WalHandle
    → Receiver
    → Result Error (WalHandle × Receiver)
unfolding check_seqno check_capacity encoded_len sum_up
enqueue_inner seqno payload capacity granted handle rx = do
  check_seqno rx.closed handle.next_seqno seqno
  encoded ← frame_len (record { payload = payload })
  check_capacity handle capacity encoded
  admission_end_bytes ← sum_up handle encoded
  reject (not granted) Error.closed
  ok (admit seqno payload handle rx admission_end_bytes)

frame_len-eq-ok :
    (payload : List ℕ) (n : ℕ)
    → frame_len (record { payload = payload }) ≡ ok n
    → n ≡ length payload + header_len
unfolding encoded_len
frame_len-eq-ok payload n h = ground arith

check_seqno-eq-ok :
    (closed : Bool) (next_seqno seqno : ℕ)
    → check_seqno closed next_seqno seqno ≡ ok tt
    → (closed ≡ false) × (seqno ≡ next_seqno) × (seqno ≢ u64_max)
unfolding check_seqno
check_seqno-eq-ok closed next_seqno seqno h = ground arith

check_capacity-eq-ok :
    (handle : WalHandle) (capacity : ActiveSegmentCapacity) (n : ℕ)
    → check_capacity handle capacity n ≡ ok tt
    → (capacity.admission_start_bytes ≤ handle.total_admitted_bytes)
      × (capacity.existing_bytes
            + (handle.total_admitted_bytes - capacity.admission_start_bytes)
            + n
          ≤ handle.max_active_segment_bytes)
unfolding check_capacity
check_capacity-eq-ok handle capacity n h = ground arith

sum_up-eq-ok :
    (handle : WalHandle) (n total : ℕ)
    → sum_up handle n ≡ ok total
    → total ≡ handle.total_admitted_bytes + n
unfolding sum_up
sum_up-eq-ok handle n total h = ground arith

-- What is true of an admission, and what it leaves.
pub record Admission (seqno : ℕ) (payload : List ℕ) (capacity : ActiveSegmentCapacity)
    (handle : WalHandle) (rx : Receiver) (admitted : WalHandle × Receiver) : Type 0 where
  pub open_channel : rx.closed ≡ false
  pub in_order : seqno ≡ handle.next_seqno
  pub not_last : seqno ≢ u64_max
  pub started : capacity.admission_start_bytes ≤ handle.total_admitted_bytes
  pub fits :
      capacity.existing_bytes + (admitted.0.total_admitted_bytes - capacity.admission_start_bytes)
      ≤ handle.max_active_segment_bytes
  pub next : admitted.0.next_seqno ≡ handle.next_seqno + 1
  pub same_ceiling : admitted.0.max_active_segment_bytes ≡ handle.max_active_segment_bytes
  pub counted :
      admitted.0.total_admitted_bytes ≡ handle.total_admitted_bytes + (length payload + header_len)
  pub command : AdmittedAppend
  pub numbered : command.seqno ≡ seqno
  pub carried : command.frame ≡ record { payload = payload }
  pub sized : command.payload_bytes ≡ length payload
  pub queued : admitted.1 ≡ record rx { commands = rx.commands ++ (append command ∷ []) }

-- An admission that succeeds has the next sequence number, which is not the last one, over an open
-- channel, keeps the active segment within its ceiling, counts the record's encoded bytes, and puts
-- exactly that record in the channel.
pub enqueue_inner-Admission :
    (seqno : ℕ) (payload : List ℕ) (capacity : ActiveSegmentCapacity) (granted : Bool)
    (handle : WalHandle) (rx : Receiver) (admitted : WalHandle × Receiver)
    → enqueue_inner seqno payload capacity granted handle rx ≡ ok admitted
    → Admission seqno payload capacity handle rx admitted
unfolding enqueue_inner
enqueue_inner-Admission seqno payload capacity granted handle rx admitted h =
    let (_, checked, h1) = >>=-eq-ok (check_seqno rx.closed handle.next_seqno seqno) _ h in
    let (n, framed, h2) = >>=-eq-ok (frame_len (record { payload = payload })) _ h1 in
    let (_, roomy, h3) = >>=-eq-ok (check_capacity handle capacity n) _ h2 in
    let (total, added, h4) = >>=-eq-ok (sum_up handle n) _ h3 in
    let (_, _, done) = >>=-eq-ok (reject (not granted) Error.closed) _ h4 in
    let size = frame_len-eq-ok payload n framed in
    let (open_channel, in_order, not_last) =
      check_seqno-eq-ok rx.closed handle.next_seqno seqno checked in
    let (started, fits) = check_capacity-eq-ok handle capacity n roomy in
    let sum = sum_up-eq-ok handle n total added in
    subst (Admission seqno payload capacity handle rx) (ok-injective done) (record {
      open_channel = open_channel;
      in_order = in_order;
      not_last = not_last;
      started = started;
      fits = omega arith;
      next = refl;
      same_ceiling = refl;
      counted = omega arith;
      command = record {
        seqno = seqno;
        frame = record { payload = payload };
        payload_bytes = length payload;
        admission_end_bytes = total;
      };
      numbered = refl;
      carried = refl;
      sized = refl;
      queued = refl;
    })
