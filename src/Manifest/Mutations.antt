-- ===== src/Manifest/Mutations.antt =====
-- The mutators of manifest.rs as their transforms: the closures that `cas_transform` applies to
-- the register's contents. `Mutation` collects them.
pub mod Fencing
pub mod Progress
pub mod Retry
pub mod Removal
use chorus.Prelude.{
  ℕ, ◌+◌, ◌-◌, ◌*◌, ◌<◌, List, [], ◌∷◌, ◌++◌, Option, none, some, Bool, true, false, not, ◌&&◌,
  ◌||◌, ltb, leb, ◌==◌, if◌then◌else◌, length, Result, ok, err, ◌>>=◌, ◌>>◌, u64_max, checked_add,
}
use chorus.Errors.{ProtocolError}
use chorus.Errors.ProtocolError.{invalid_manifest, fenced, segment_directory_full}
use chorus.Text.{Text, text_eq, option_eq, contains}
use chorus.Text.Format.{segment_id}
use chorus.Manifest.Wire.{encode_segments}
use chorus.Manifest.{ManifestRecord, DirectoryEntry, reject, last?, nat_option_eq, next_base}

pub data CasTransform (A : Type 0) : Type 0 where
  done : A → CasTransform A
  update : ManifestRecord → A → CasTransform A

-- `Manifest::claim`
unfoldable pub claim : Text → ManifestRecord → Result ProtocolError (CasTransform ℕ)
claim owner r = elim (checked_add r.epoch 1) [
  | none ↦ err (invalid_manifest "epoch overflowed u64")
  | some candidate ↦ ok (
      update
        (record r {
          epoch = candidate;
          owner = owner;
          tail_id = elim r.tail_id [
            | none ↦ some (segment_id candidate 0)
            | some tail_id ↦ some tail_id
          ];
        })
        candidate)
]

unfoldable pub check_claim : ManifestRecord → ℕ → Text → Result ProtocolError (Unit {0})
check_claim r epoch owner =
    reject (not (r.epoch == epoch) || not (text_eq r.owner owner))
      (fenced "a higher epoch claimed the manifest")

-- What follows the claim check in each mutator is a function of its own.
unfoldable pub register_pending_into :
    Text → Option Text → ManifestRecord → Result ProtocolError (CasTransform (Unit {0}))
register_pending_into pending_id (some committed) r =
    if text_eq committed pending_id
    then ok (done tt)
    else err (fenced "pending segment slot already contains another id")
register_pending_into pending_id none r = ok (update (record r { pending_id = some pending_id }) tt)

unfoldable pub register_pending :
    ℕ → Text → Text → ManifestRecord → Result ProtocolError (CasTransform (Unit {0}))
unfolding check_claim register_pending_into
register_pending epoch owner pending_id r = do
  check_claim r epoch owner
  register_pending_into pending_id r.pending_id r

pub record EmptyFrontier : Type 0 where
  pub expected_tail_id : Option Text
  pub expected_pending_id : Option Text
  pub tail_base : ℕ
  pub active_id : Text
  pub pending_id : Text

unfoldable pub replace_frontier_into :
    EmptyFrontier → ManifestRecord → Result ProtocolError (CasTransform (Unit {0}))
replace_frontier_into f r =
    if option_eq r.tail_id (some f.active_id)
      && (option_eq r.pending_id (some f.pending_id) && (r.tail_base == f.tail_base))
    then ok (done tt)
    else if not (option_eq r.tail_id f.expected_tail_id)
        || (not (option_eq r.pending_id f.expected_pending_id) || not (r.tail_base == f.tail_base))
    then err (fenced "manifest no longer matches the empty frontier")
    else ok (update (record r { tail_id = some f.active_id; pending_id = some f.pending_id }) tt)

unfoldable pub replace_empty_frontier :
    ℕ → Text → EmptyFrontier → ManifestRecord → Result ProtocolError (CasTransform (Unit {0}))
unfolding check_claim replace_frontier_into
replace_empty_frontier epoch owner f r = do check_claim r epoch owner; replace_frontier_into f r

pub record PendingFold : Type 0 where
  pub old_tail_id : Text
  pub old_tail_base : ℕ
  pub old_tail_end : ℕ
  pub old_tail_digest : Text
  pub old_tail_crc32c : ℕ
  pub consumed_pending_id : Text
  pub successor_tail_id : Text
  pub refill_pending_id : Text

-- `16 + 1 + 16 + 1 + 20 + 1 + 8 + 1`
abbrev pub worst_case_entry_bytes : ℕ
worst_case_entry_bytes = 64

abbrev pub checked_mul : ℕ → ℕ → Option ℕ
checked_mul a b = if leb (a * b) u64_max then some (a * b) else none

unfoldable pub directory_has_room_for : ℕ → ℕ → ℕ → Bool
directory_has_room_for current_encoded_len additional max_directory_bytes =
    elim (checked_mul additional worst_case_entry_bytes) [
      | none ↦ false
      | some reserved ↦ elim (checked_add current_encoded_len reserved) [
        | none ↦ false
        | some required ↦ leb required max_directory_bytes
      ]
    ]

unfoldable pub directory_has_room : ManifestRecord → ℕ → ℕ → Bool
unfolding directory_has_room_for encode_segments
directory_has_room r additional max_directory_bytes =
    directory_has_room_for (length (encode_segments r.segments)) additional max_directory_bytes

abbrev pub saturating_add : ℕ → ℕ → ℕ
saturating_add a b = elim (checked_add a b) [ none ↦ u64_max | some c ↦ c ]

-- The test by which a retry sees that its fold has been committed.
unfoldable pub fold_committed : PendingFold → ManifestRecord → Bool
fold_committed f r =
    option_eq r.tail_id (some f.successor_tail_id)
    && ((r.tail_base == saturating_add f.old_tail_end 1)
        && (option_eq r.pending_id (some f.refill_pending_id)
            && (option_eq r.seal_id (some f.old_tail_id)
                && (nat_option_eq r.seal_base (some f.old_tail_base)
                    && option_eq r.seal_digest (some f.old_tail_digest)))))

-- The checksum of the last entry, if that is the folded one.
abbrev pub committed_crc32c : PendingFold → Option DirectoryEntry → Option ℕ
committed_crc32c f none = none
committed_crc32c f (some entry) =
    if text_eq entry.id f.old_tail_id && (entry.base == f.old_tail_base)
    then some entry.crc32c
    else none

unfoldable pub fold_result : PendingFold → ManifestRecord → ℕ → ManifestRecord
fold_result f r tail_base = record r {
  segments =
      r.segments
      ++ (record { id = f.old_tail_id; base = f.old_tail_base; crc32c = f.old_tail_crc32c } ∷ []);
  tail_base = tail_base;
  tail_id = some f.successor_tail_id;
  pending_id = some f.refill_pending_id;
  seal_base = some f.old_tail_base;
  seal_id = some f.old_tail_id;
  seal_digest = some f.old_tail_digest;
}

unfoldable pub fold_into :
    ℕ → PendingFold → ManifestRecord → Result ProtocolError (CasTransform (Unit {0}))
fold_into max_directory_bytes f r =
    if fold_committed f r
    then (if nat_option_eq (committed_crc32c f (last? r.segments)) (some f.old_tail_crc32c)
        then ok (done tt)
        else err (invalid_manifest "committed fold checksum differs from retry"))
    else if not (option_eq r.tail_id (some f.old_tail_id))
        || (not (r.tail_base == f.old_tail_base)
            || not (option_eq r.pending_id (some f.consumed_pending_id)))
    then err (fenced "manifest no longer matches the pending fold")
    else elim (checked_add f.old_tail_end 1) [
      | none ↦ err (invalid_manifest "pending fold tail end overflowed u64")
      | some tail_base ↦
          if directory_has_room r 1 max_directory_bytes
          then ok (update (fold_result f r tail_base) tt)
          else err segment_directory_full
    ]

unfoldable pub fold_pending :
    ℕ → Text → ℕ → PendingFold → ManifestRecord → Result ProtocolError (CasTransform (Unit {0}))
unfolding check_claim fold_into fold_committed directory_has_room fold_result
fold_pending epoch owner max_directory_bytes f r = do
  check_claim r epoch owner
  fold_into max_directory_bytes f r

unfoldable pub raise_trunc_into :
    ℕ → ManifestRecord → Result ProtocolError (CasTransform (Unit {0}))
raise_trunc_into floor r =
    if leb floor r.trunc then ok (done tt) else ok (update (record r { trunc = floor }) tt)

unfoldable pub raise_trunc :
    ℕ → Text → ℕ → ManifestRecord → Result ProtocolError (CasTransform (Unit {0}))
unfolding check_claim raise_trunc_into
raise_trunc epoch owner floor r = do check_claim r epoch owner; raise_trunc_into floor r

unfoldable pub check_removals :
    List Text → ℕ → ℕ → List DirectoryEntry → Result ProtocolError (Unit {0})
check_removals ids floor tail_base [] = ok tt
check_removals ids floor tail_base (entry ∷ segments) =
    let rest = check_removals ids floor tail_base segments in
    if not (contains ids entry.id) then rest else (do
      reject (next_base tail_base segments == 0)
          (invalid_manifest "cannot derive an end for segment")
      reject (leb floor (next_base tail_base segments - 1))
          (invalid_manifest "cannot remove segment at truncation floor")
      rest)

unfoldable pub validate_removals : ManifestRecord → List Text → ℕ → Result ProtocolError (Unit {0})
unfolding check_removals
validate_removals r ids witnessed_floor = do
  reject (ltb r.trunc witnessed_floor)
      (invalid_manifest "segment removal floor exceeds committed truncation floor")
  check_removals ids witnessed_floor r.tail_base r.segments

unfoldable pub any_listed : List Text → List DirectoryEntry → Bool
any_listed ids [] = false
any_listed ids (entry ∷ segments) = contains ids entry.id || any_listed ids segments

unfoldable pub retain_unlisted : List Text → List DirectoryEntry → List DirectoryEntry
retain_unlisted ids [] = []
retain_unlisted ids (entry ∷ segments) =
    if contains ids entry.id
    then retain_unlisted ids segments
    else entry ∷ retain_unlisted ids segments

unfoldable pub remove_segments :
    List Text → ℕ → ManifestRecord → Result ProtocolError (CasTransform (Unit {0}))
unfolding validate_removals any_listed retain_unlisted
remove_segments ids witnessed_floor r = do
  validate_removals r ids witnessed_floor
  if any_listed ids r.segments
      then ok (update (record r { segments = retain_unlisted ids r.segments }) tt)
      else ok (done tt)

-- Every mutator of the register but `claim`, with its arguments.
pub data Mutation : Type 0 where
  registers_pending : ℕ → Text → Text → Mutation
  replaces_frontier : ℕ → Text → EmptyFrontier → Mutation
  folds_pending : ℕ → Text → ℕ → PendingFold → Mutation
  raises_trunc : ℕ → Text → ℕ → Mutation
  removes_segments : List Text → ℕ → Mutation

unfoldable pub transform :
    Mutation → ManifestRecord → Result ProtocolError (CasTransform (Unit {0}))
unfolding register_pending replace_empty_frontier fold_pending raise_trunc remove_segments
transform (registers_pending epoch owner pending_id) = register_pending epoch owner pending_id
transform (replaces_frontier epoch owner f) = replace_empty_frontier epoch owner f
transform (folds_pending epoch owner max_bytes f) = fold_pending epoch owner max_bytes f
transform (raises_trunc epoch owner floor) = raise_trunc epoch owner floor
transform (removes_segments ids floor) = remove_segments ids floor

-- The claim that a mutator carries; removal carries none.
abbrev pub claim_of : Mutation → Option (ℕ × Text)
claim_of (registers_pending epoch owner _) = some (epoch, owner)
claim_of (replaces_frontier epoch owner _) = some (epoch, owner)
claim_of (folds_pending epoch owner _ _) = some (epoch, owner)
claim_of (raises_trunc epoch owner _) = some (epoch, owner)
claim_of (removes_segments _ _) = none
