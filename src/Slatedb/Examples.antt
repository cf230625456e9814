-- ===== src/Slatedb/Examples.antt =====
-- The adapter of rust/client/src/slatedb.rs and slatedb/ at concrete batches, ranges and calls.
use chorus.Prelude.{
  ℕ, ◌≤◌, ◌≡◌, refl, Bool, true, false, Option, none, some, List, [], ◌∷◌, arith, length, Result,
  ok, err,
}
use chorus.Prelude.Int.{negsuc}
use chorus.Errors.{Error}
use chorus.Slatedb.{ValueDeletable, merge, tombstone, RowEntry, ValueMethods, Documented}
use chorus.Slatedb.Codec.{be, encode, decode, sized, put_row, put_rows}
use chorus.Slatedb.Batch.{decode-encode}
use chorus.Slatedb.Retention.{
  Bound, included, excluded, unbounded, retain_from, protected, Least, retain_from-Least,
}
use chorus.Slatedb.Progress.{Position, Progress}
use chorus.Slatedb.Observer.{new, progress}
use chorus.Slatedb.Observer.Events.{Call, admits, commits, subscribes, Told, run, step}
use chorus.Slatedb.Observer.Listeners.{Sent, run-Told}
use chorus.Slatedb.Observer.Commits.{forget}
use chorus.Slatedb.Observer.Coalescing.{forward_each, latest, forward_each-latest}

abbrev as_bytes : ValueDeletable → Option (List ℕ)
as_bytes (ValueDeletable.value b) = some b
as_bytes (merge b) = some b
as_bytes tombstone = none

abbrev len : ValueDeletable → ℕ
len (ValueDeletable.value b) = length b
len (merge b) = length b
len tombstone = 0

abbrev is_tombstone : ValueDeletable → Bool
is_tombstone tombstone = true
is_tombstone _ = false

abbrev methods : ValueMethods
methods = record { len = len; as_bytes = as_bytes; is_tombstone = is_tombstone }

documented : Documented methods
documented = record {
  bytes_value = λ b. refl;
  bytes_merge = λ b. refl;
  bytes_tombstone = refl;
  len_value = λ b. refl;
  len_merge = λ b. refl;
  len_tombstone = refl;
  tombstone_value = λ b. refl;
  tombstone_merge = λ b. refl;
  tombstone_tombstone = refl;
}

abbrev rows : List RowEntry
rows =
    record {
      key = 5 ∷ [];
      value = ValueDeletable.value (7 ∷ 8 ∷ []);
      seq = 3;
      create_ts = some (negsuc 0);
      expire_ts = none;
    }
    ∷ record { key = []; value = tombstone; seq = 3; create_ts = none; expire_ts = none }
    ∷ []

abbrev encoded : List ℕ
encoded =
    67 ∷ 72 ∷ 83 ∷ 76 ∷ 87 ∷ 65 ∷ 76 ∷ 1 ∷ 0 ∷ 0 ∷ 0 ∷ 2 ∷ 0 ∷ 0 ∷ 0 ∷ 0 ∷ 0 ∷ 0 ∷ 0 ∷ 3 ∷ 0 ∷ 0 ∷ 0
    ∷ 1 ∷ 5 ∷ 0 ∷ 1 ∷ 255 ∷ 255 ∷ 255 ∷ 255 ∷ 255 ∷ 255 ∷ 255 ∷ 255 ∷ 0 ∷ 0 ∷ 0 ∷ 2 ∷ 7 ∷ 8 ∷ 0 ∷ 0
    ∷ 0 ∷ 0 ∷ 2 ∷ 0 ∷ []

encodes : encode methods rows 47 ≡ ok encoded
unfolding encode sized put_row put_rows be
encodes = refl

decode-encode_example : (decode encoded ≡ ok rows) × (length encoded ≤ 47)
decode-encode_example =
    decode-encode methods rows 47 encoded documented
      ((omega arith, omega arith, tt), ((omega arith, tt, tt), tt)) encodes

abbrev ranges : List (Bound × Bound)
ranges = (excluded 2, excluded 6) ∷ (included 5, unbounded) ∷ (included 7, excluded 7) ∷ []

retain_from-Least_example : Least ranges (retain_from ranges)
retain_from-Least_example = retain_from-Least ranges (omega arith, (omega arith, (omega arith, tt)))

retain_from_test : retain_from ranges ≡ 2
unfolding retain_from protected
retain_from_test = refl

abbrev at : ℕ → ℕ → Position
at wal_id seq = record { wal_id = wal_id; seq = seq; total_rows = wal_id }

abbrev calls : List Call
calls = subscribes 1 ∷ admits 9 ∷ commits (at 5 50) ∷ commits (at 4 40) ∷ []

run-Told_example :
    Told 3 (run calls (new 3))
    × Sent (1 ∷ []) (run calls (new 3)) (step (commits (at 6 60)) (run calls (new 3)))
run-Told_example = run-Told 3 calls (commits (at 6 60))

abbrev completions : List (Position × Result Error ℕ)
completions = (at 4 40, ok 3) ∷ (at 5 50, ok 4) ∷ (at 6 60, err Error.closed) ∷ []

abbrev nothing : Progress
nothing = record { committed = none; failure = none }

forward_each-latest_example :
    forget (forward_each completions nothing (new 3))
    ≡ forget (progress (latest completions nothing) (new 3))
forward_each-latest_example =
    forward_each-latest completions nothing 3 (new 3) tt
      (omega arith, (omega arith, (omega arith, tt)))
