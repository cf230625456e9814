-- ===== src/Manifest/Examples.antt =====
-- Runs of manifest.rs and the theorems at a concrete register.
use chorus.Prelude.{◌≡◌, refl, inl, inr, some, List, [], ◌∷◌, arith, All, ok, err}
use chorus.Errors.ProtocolError.{fenced}
use chorus.Text.{Text, text_eq, contains, contains_byte}
use chorus.Text.Format.{decimal, hex_padded}
use chorus.Manifest.{ManifestRecord, DirectoryEntry, validate, initial}
use chorus.Manifest.Valid.{IsValid, validate-IsValid}
use chorus.Manifest.Wire.{encode}
use chorus.Manifest.Store.{World, delivered, response_lost}
use chorus.Manifest.Mutations.{
  done, update, Mutation, folds_pending, raises_trunc, PendingFold, transform, check_removals,
  retain_unlisted, fold_result,
}
use chorus.Manifest.Mutations.Fencing.{transform_fenced, transform_keeps}
use chorus.Manifest.Mutations.Retry.{transform_retry}
use chorus.Manifest.Mutations.Progress.{Advances, transform-Advances}
use chorus.Manifest.Mutations.Removal.{segment_at, segment_at-retain}
use chorus.Manifest.Cas.{Manifest, mutate, claim_epoch, cas_transform}
use chorus.Manifest.Cas.Known.{Knows, Justified}
use chorus.Manifest.Cas.Atomic.{cas_transform_atomic}
use chorus.Manifest.Cas.Writes.{Step, mutate-Steps, Claims, claim_epoch-Claims}

abbrev zones : List Text
zones = (b'z' ∷ b'0' ∷ []) ∷ (b'z' ∷ b'1' ∷ []) ∷ (b'z' ∷ b'2' ∷ []) ∷ []

abbrev sealed_a : DirectoryEntry
sealed_a = record { id = b'a' ∷ []; base = 0; crc32c = 0x01234567 }

abbrev sealed_b : DirectoryEntry
sealed_b = record { id = b'b' ∷ []; base = 5; crc32c = 0x1234abcd }

abbrev sample : ManifestRecord
sample = record {
  epoch = 7;
  owner = b'o' ∷ [];
  tail_base = 10;
  tail_id = some (b't' ∷ []);
  pending_id = some (b'p' ∷ []);
  seal_base = some 5;
  seal_id = some (b'b' ∷ []);
  seal_digest = some (b'd' ∷ []);
  trunc = 5;
  segments = sealed_a ∷ sealed_b ∷ [];
  buckets = zones;
}

sample_valid : validate sample ≡ ok tt
unfolding validate contains contains_byte text_eq
sample_valid = refl

validate-IsValid_example : IsValid sample
validate-IsValid_example = validate-IsValid sample sample_valid

abbrev fold : PendingFold
fold = record {
  old_tail_id = b't' ∷ [];
  old_tail_base = 10;
  old_tail_end = 19;
  old_tail_digest = b'e' ∷ [];
  old_tail_crc32c = 9;
  consumed_pending_id = b'p' ∷ [];
  successor_tail_id = b'p' ∷ [];
  refill_pending_id = b'q' ∷ [];
}

abbrev folds : Mutation
folds = folds_pending 7 (b'o' ∷ []) 6144 fold

fold_run : transform folds sample ≡ ok (update (fold_result fold sample 20) tt)
unfolding transform text_eq decimal hex_padded
fold_run = refl

folded_valid : validate (fold_result fold sample 20) ≡ ok tt
unfolding validate contains contains_byte text_eq fold_result
folded_valid = refl

transform_keeps_example :
    ((fold_result fold sample 20).epoch ≡ 7)
    × ((fold_result fold sample 20).owner ≡ b'o' ∷ [])
    × ((fold_result fold sample 20).buckets ≡ zones)
transform_keeps_example = transform_keeps folds sample (fold_result fold sample 20) fold_run

transform_retry_example : transform folds (fold_result fold sample 20) ≡ ok (done tt)
transform_retry_example = transform_retry folds sample (fold_result fold sample 20) fold_run

transform-Advances_example : Advances sample (fold_result fold sample 20)
transform-Advances_example =
    transform-Advances folds sample (fold_result fold sample 20) fold_run sample_valid folded_valid

transform_fenced_example :
    transform (raises_trunc 6 (b'o' ∷ []) 8) sample
    ≡ err (fenced "a higher epoch claimed the manifest")
transform_fenced_example =
    transform_fenced (raises_trunc 6 (b'o' ∷ []) 8) sample 6 (b'o' ∷ []) refl (inl (omega arith))

-- The first sealed segment ends below the floor 5 and may go.
sweep_checked : check_removals ((b'a' ∷ []) ∷ []) 5 10 (sealed_a ∷ sealed_b ∷ []) ≡ ok tt
unfolding check_removals contains text_eq
sweep_checked = refl

segment_at-retain_example :
    segment_at 10 (retain_unlisted ((b'a' ∷ []) ∷ []) (sealed_a ∷ sealed_b ∷ [])) 7
    ≡ segment_at 10 (sealed_a ∷ sealed_b ∷ []) 7
segment_at-retain_example =
    segment_at-retain ((b'a' ∷ []) ∷ []) 5 10 7 (sealed_a ∷ sealed_b ∷ [])
      (omega arith, (omega arith, tt)) sweep_checked (omega arith)

-- A writer whose cache is the register at version 3; another process writes before its second
-- request, and the response to the first is lost.
abbrev writer : Manifest
writer = record {
  max_retries = 2;
  owner = b'o' ∷ [];
  epoch = 7;
  bucket_names = zones;
  max_directory_bytes = 6144;
  version = 3;
  cached = sample;
}

abbrev world : World
world = record {
  register = some (record { version = 3; fields = encode sample });
  script =
      record { others = []; delivery = response_lost }
      ∷ record { others = encode (initial zones) ∷ []; delivery = delivered }
      ∷ [];
  writes = [];
}

writer-Knows : Knows 3 sample world.register
writer-Knows = (omega arith, inr (refl, (sample_valid, inr refl)))

cas_transform_atomic_example :
    All
      (Justified (transform folds))
      (cas_transform (fenced "") (transform folds) writer world).2.writes
    × Knows
        (cas_transform (fenced "") (transform folds) writer world).1.version
        (cas_transform (fenced "") (transform folds) writer world).1.cached
        (cas_transform (fenced "") (transform folds) writer world).2.register
cas_transform_atomic_example =
    cas_transform_atomic (transform folds) (fenced "") writer world writer-Knows refl

mutate-Steps_example : All (Step folds) (mutate folds writer world).2.writes
mutate-Steps_example = mutate-Steps folds writer world writer-Knows refl

claim_epoch-Claims_example : All (Claims (b'o' ∷ [])) (claim_epoch writer world).2.writes
claim_epoch-Claims_example = claim_epoch-Claims writer world writer-Knows refl
