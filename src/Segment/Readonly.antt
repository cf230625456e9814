-- ===== src/Segment/Readonly.antt =====
-- What a reader of rust/client/src/segment.rs gets from a valid register and from a segment's
-- frames.
use chorus.Prelude.{
  ℕ, zero, suc, ◌+◌, ◌-◌, ◌≤◌, ◌<◌, max, ◌≡◌, refl, sym, ap, ◌∙◌, inl, inr, Option, some, List, [],
  ◌∷◌, arith, ltb, leb, ltb→lt, leb→le, Bool-cases, u64_max, length, take, drop, drop-nil, ok,
}
use chorus.Record.{RecordFrame}
use chorus.Text.{Text, option_eq}
use chorus.Manifest.{ManifestRecord, DirectoryEntry, next_base, validate}
use chorus.Manifest.Valid.{IsOrdered, validate-IsValid}
use chorus.Segment.{
  replay_records, wrapping_add, describe, readonly_segments, end_of, WalRecord, replay_from,
  describe_all, SegmentDescriptor,
}

-- The descriptors of a directory's entries, in order: each starts at its entry's base and ends right
-- before the next base, or before the tail.
abbrev pub Describes : Option Text → ℕ → List DirectoryEntry → List SegmentDescriptor → Type 0
Describes seal_id tail_base [] [] = Unit {0}
Describes seal_id tail_base [] (d ∷ ds) = ⊥
Describes seal_id tail_base (entry ∷ segments) [] = ⊥
Describes seal_id tail_base (entry ∷ segments) (d ∷ ds) =
    (d.id ≡ entry.id)
    × (d.base_record_index ≡ entry.base)
    × (d.base_record_index ≤ d.end_record_index)
    × (d.end_record_index + 1 ≡ next_base tail_base segments)
    × (d.crc32c ≡ entry.crc32c)
    × (d.seal_pending ≡ option_eq seal_id (some entry.id))
    × Describes seal_id tail_base segments ds

end_of-ok :
    (base next : ℕ)
    → base < next
    → (end : ℕ) × (end_of base next ≡ ok end) × (base ≤ end) × (end + 1 ≡ next)
unfolding end_of
end_of-ok base zero h = absurd (omega arith)
end_of-ok base (suc end) h = (end, ground arith, omega arith, omega arith)

describe_all-Describes :
    (seal_id : Option Text) (tail_base : ℕ) (segments : List DirectoryEntry)
    → IsOrdered tail_base segments
    → (ds : List SegmentDescriptor) × (describe_all seal_id tail_base segments ≡ ok ds)
      × Describes seal_id tail_base segments ds
unfolding describe_all
describe_all-Describes seal_id tail_base [] ordered = ([], refl, tt)
describe_all-Describes seal_id tail_base (entry ∷ segments) (below, ordered) =
    let (end, found, above, next) = end_of-ok entry.base (next_base tail_base segments) below in
    let (ds, described, rest) = describe_all-Describes seal_id tail_base segments ordered in
    (
      describe seal_id entry end ∷ ds,
      rw (found, described),
      (refl, refl, above, next, refl, refl, rest),
    )

-- From a register that validate accepts, a reader gets one descriptor for each directory entry, and
-- they cover the records from the first base to the tail without gap or overlap.
pub readonly_segments-Describes :
    (r : ManifestRecord)
    → validate r ≡ ok tt
    → (ds : List SegmentDescriptor) × (readonly_segments r ≡ ok ds)
      × Describes r.seal_id r.tail_base r.segments ds
unfolding readonly_segments
readonly_segments-Describes r valid =
    describe_all-Describes r.seal_id r.tail_base r.segments (validate-IsValid r valid).ordered

-- Frames with consecutive sequence numbers.
pub number : ℕ → List RecordFrame → List WalRecord
number seqno [] = []
number seqno (frame ∷ frames) =
    record { seqno = seqno; payload = frame.payload } ∷ number (seqno + 1) frames

-- The frames of a segment that starts at `p`, cut to the records from `from` to before `end`.
pub window : ℕ → List RecordFrame → ℕ → ℕ → List WalRecord
window p frames from end = number (max p from) (take (end - max p from) (drop (from - p) frames))

window_before :
    (p : ℕ) (frame : RecordFrame) (frames : List RecordFrame) (from end : ℕ)
    → p < from
    → window p (frame ∷ frames) from end ≡ window (p + 1) frames from end
unfolding window
window_before p frame frames from end below =
    let start : max p from ≡ from = omega arith in
    let start' : max (p + 1) from ≡ from = omega arith in
    let skip : from - p ≡ suc (from - (p + 1)) = omega arith in rw (start, start', skip)

window_after :
    (p : ℕ) (frames : List RecordFrame) (from end : ℕ) → end ≤ p → window p frames from end ≡ []
unfolding window number
window_after p frames from end beyond =
    let none_left : end - max p from ≡ 0 = omega arith in rw none_left

window_in :
    (p : ℕ) (frame : RecordFrame) (frames : List RecordFrame) (from end : ℕ)
    → from ≤ p
    → p < end
    → window p (frame ∷ frames) from end
      ≡ record { seqno = p; payload = frame.payload } ∷ window (p + 1) frames from end
unfolding window number
window_in p frame frames from end above below =
    let start : max p from ≡ p = omega arith in
    let start' : max (p + 1) from ≡ p + 1 = omega arith in
    let skip : from - p ≡ 0 = omega arith in
    let skip' : from - (p + 1) ≡ 0 = omega arith in
    let count : end - p ≡ suc (end - (p + 1)) = omega arith in
    rw (start, start', skip, skip', count)

take-nil {ℓ} : {A : Type ℓ} (n : ℕ) → take {A = A} n [] ≡ []
take-nil zero = refl
take-nil (suc n) = refl

window_nil : (p from end : ℕ) → window p [] from end ≡ []
unfolding window number
window_nil p from end =
    rw (drop-nil {A = RecordFrame} (from - p))
      (ap (number (max p from)) (take-nil (end - max p from)))

wrapping_add_small : (a b : ℕ) → a + b ≤ u64_max → wrapping_add a b ≡ a + b
wrapping_add_small a b h = omega arith

replay_from-window :
    (base offset : ℕ) (frames : List RecordFrame) (from end : ℕ)
    → base + offset + length frames ≤ u64_max
    → replay_from base offset frames from end ≡ window (base + offset) frames from end
unfolding replay_from
replay_from-window base offset [] from end fits = sym (window_nil (base + offset) from end)
replay_from-window base offset (frame ∷ frames) from end fits =
    let p = base + offset in
    let sum = wrapping_add_small base offset (omega arith) in
    let next : base + (offset + 1) ≡ p + 1 = omega arith in
    let rest = replay_from-window base (offset + 1) frames from end (omega arith) in
    elim (Bool-cases (ltb p from)) [
      | inl e ↦
          rw (sum, e, rest, next) (sym (window_before p frame frames from end (ltb→lt p from e)))
      | inr e ↦ elim (Bool-cases (leb end p)) [
        | inl e' ↦
            rw (sum, e, e', rest, next)
              (window_after (p + 1) frames from end (let h = leb→le end p e' in omega arith)
                ∙ sym (window_after p (frame ∷ frames) from end (leb→le end p e')))
        | inr e' ↦
            rw (sum, e, e', rest, next)
              (sym (window_in p frame frames from end (ground arith) (ground arith)))
      ]
    ]

-- If a segment's record indices fit in 64 bits, replay gives exactly its records from `from` to
-- before `end`, each with its index.
pub replay_records-window :
    (segment : SegmentDescriptor) (frames : List RecordFrame) (from end : ℕ)
    → segment.base_record_index + length frames ≤ u64_max
    → replay_records segment frames from end ≡ ok (window segment.base_record_index frames from end)
unfolding replay_records
replay_records-window segment frames from end fits =
    let same : segment.base_record_index + 0 ≡ segment.base_record_index = omega arith in
    ap ok (
      replay_from-window segment.base_record_index 0 frames from end (omega arith)
      ∙ ap (λ p. window p frames from end) same)
