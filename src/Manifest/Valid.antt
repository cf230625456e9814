-- ===== src/Manifest/Valid.antt =====
-- What `validate` promises of a register, stated without its loops.
use chorus.Prelude.{
  ap, ℕ, ◌<◌, List, [], ◌∷◌, Option, none, some, Bool, true, false, not, ◌&&◌, ◌||◌, ◌≡◌, ◌≢◌, refl,
  ◌⊎◌, arith, ltb, leb, ◌==◌, length, Result, ok, ◌>>◌, >>=-eq-ok,
}
use chorus.Errors.{ProtocolError}
use chorus.Text.{Text, option_eq, contains, contains_byte, is_empty}
use chorus.Text.Equality.{eq_of_option_eq, option_eq_refl, Unlisted, contains-false, text_eq_refl}
use chorus.Manifest.{
  ManifestRecord, DirectoryEntry, reject, is_some, some_and, last?, nat_option_eq, supported_count,
  check_names, check_segments, check_pending, seal_names, validate, next_base,
}

-- Each entry begins below what follows it.
abbrev pub IsOrdered : ℕ → List DirectoryEntry → Type 0
IsOrdered tail_base [] = Unit {0}
IsOrdered tail_base (entry ∷ segments) =
    (entry.base < next_base tail_base segments) × IsOrdered tail_base segments

abbrev pub ids_of : List DirectoryEntry → List Text
ids_of [] = []
ids_of (entry ∷ segments) = entry.id ∷ ids_of segments

abbrev pub AreDistinct : List Text → Type 0
AreDistinct [] = Unit {0}
AreDistinct (t ∷ ts) = Unlisted t ts × AreDistinct ts

abbrev pub AreBucketNames : List Text → Type 0
AreBucketNames [] = Unit {0}
AreBucketNames (t ∷ ts) = (t ≢ []) × (contains_byte b',' t ≡ false) × AreBucketNames ts

pub record IsValid (r : ManifestRecord) : Type 0 where
  pub seal_paired : is_some r.seal_base ≡ is_some r.seal_digest
  pub claimed : 0 < r.epoch → is_some r.tail_id ≡ true
  pub ordered : IsOrdered r.tail_base r.segments
  pub distinct : AreDistinct (ids_of r.segments)
  pub tail_fresh : (t : Text) → r.tail_id ≡ some t → Unlisted t (ids_of r.segments)
  pub pending_fresh :
      (t : Text)
      → r.pending_id ≡ some t
      → (t ≢ [])
        × (contains_byte b':' t ≡ false)
        × (contains_byte b',' t ≡ false)
        × (r.tail_id ≢ some t)
        × Unlisted t (ids_of r.segments)
  pub seal_last :
      (entry : DirectoryEntry)
      → r.trunc < r.tail_base
      → last? r.segments ≡ some entry
      → (r.seal_id ≡ some entry.id) × (r.seal_base ≡ some entry.base)
  pub replicas : (length r.buckets ≡ 1) ⊎ (length r.buckets ≡ 3) ⊎ (length r.buckets ≡ 5)
  pub bucket_names : AreBucketNames r.buckets
  pub bucket_distinct : AreDistinct r.buckets

reject-eq-ok : (b : Bool) (e : ProtocolError) → reject b e ≡ ok tt → b ≡ false
reject-eq-ok true e h = cc
reject-eq-ok false e h = refl

-- Inversion of a guard in front of the rest of a block.
reject_then :
    (b : Bool) (e : ProtocolError) (m : Result ProtocolError (Unit {0}))
    → (reject b e >> m) ≡ ok tt
    → (b ≡ false) × (m ≡ ok tt)
reject_then true e m h = cc
reject_then false e m h = (refl, h)

reject_bind :
    {A : Type 0} (b : Bool) (e : ProtocolError) (m : Result ProtocolError A) (a : A)
    → (reject b e >> m) ≡ ok a
    → (b ≡ false) × (m ≡ ok a)
reject_bind true e m a h = cc
reject_bind false e m a h = (refl, h)

contains_cons : (u t : Text) (ids : List Text) → contains ids t ≡ true → contains (u ∷ ids) t ≡ true
unfolding contains
contains_cons u t ids h = ground arith

contains_head : (t : Text) (ids : List Text) → contains (t ∷ ids) t ≡ true
unfolding contains
contains_head t ids = rw (text_eq_refl t)

ne_of_contains :
    (ids : List Text) (u t : Text) → contains ids u ≡ false → contains ids t ≡ true → u ≢ t
ne_of_contains ids u t h k e = cc (ap (contains ids) e)

-- What the loop over the directory establishes. `ids` are those collected before, `all` those
-- collected at the end.
record Checked (tail_base : ℕ) (segments : List DirectoryEntry) (ids : List Text)
    (previous : Option ℕ) (all : List Text) : Type 0 where
  ordered : IsOrdered tail_base segments
  distinct : AreDistinct (ids_of segments)
  fresh : (t : Text) → contains ids t ≡ true → Unlisted t (ids_of segments)
  collected : (t : Text) → Unlisted t all → Unlisted t (ids_of segments) × Unlisted t ids
  above : (b : ℕ) → previous ≡ some b → b < tail_base → b < next_base tail_base segments

previous_below :
    (previous : Option ℕ) (base b : ℕ)
    → some_and previous (λ b'. leb base b') ≡ false
    → previous ≡ some b
    → b < base
previous_below none base b h e = cc
previous_below (some c) base b h e = ground arith

check_segments-Checked :
    (tail_base : ℕ) (segments : List DirectoryEntry) (ids : List Text) (previous : Option ℕ)
    (all : List Text)
    → check_segments tail_base ids previous segments ≡ ok all
    → Checked tail_base segments ids previous all
unfolding check_segments
check_segments-Checked tail_base [] ids previous all h =
    let e : ids ≡ all = ground arith in
    record {
      ordered = tt;
      distinct = tt;
      fresh = λ t k. tt;
      collected = λ t k. (tt, rw e k);
      above = λ b e b<. b<;
    }
check_segments-Checked tail_base (entry ∷ segments) ids previous all h =
    let (increasing, h1) = reject_bind (some_and previous (λ b. leb entry.base b)) _ _ all h in
    let (below, h2) = reject_bind (leb tail_base entry.base) _ _ all h1 in
    let (new, h3) = reject_bind (contains ids entry.id) _ _ all h2 in
    let c = check_segments-Checked tail_base segments (entry.id ∷ ids) (some entry.base) all h3 in
    record {
      ordered = (c.above entry.base refl (ground arith), c.ordered);
      distinct = (c.fresh entry.id (contains_head entry.id ids), c.distinct);
      fresh =
          λ t k. (ne_of_contains ids entry.id t new k, c.fresh t (contains_cons entry.id t ids k));
      collected = λ t k. let (u, v) = c.collected t k in ((v.0, u), v.1);
      above = λ b e _. previous_below previous entry.base b increasing e;
    }

check_names_sound :
    (buckets unique : List Text)
    → check_names unique buckets ≡ ok tt
    → AreBucketNames buckets
      × AreDistinct buckets
      × ((t : Text) → contains unique t ≡ true → Unlisted t buckets)
unfolding check_names
check_names_sound [] unique h = (tt, tt, λ t k. tt)
check_names_sound (bucket ∷ buckets) unique h =
    let (named, h1) = reject_then (is_empty bucket || contains_byte b',' bucket) _ _ h in
    let (new, h2) = reject_then (contains unique bucket) _ _ h1 in
    let (names, distinct, fresh) = check_names_sound buckets (bucket ∷ unique) h2 in
    (
      (nonempty bucket named, no_comma bucket named, names),
      (fresh bucket (contains_head bucket unique), distinct),
      λ t k. (ne_of_contains unique bucket t new k, fresh t (contains_cons bucket t unique k)),
    )
  where
    nonempty : (t : Text) → (is_empty t || contains_byte b',' t) ≡ false → t ≢ []
    nonempty [] e = λ k. cc
    nonempty (b ∷ t) e = λ k. cc

    no_comma :
        (t : Text) → (is_empty t || contains_byte b',' t) ≡ false → contains_byte b',' t ≡ false
    no_comma t e = ground arith

check_pending_sound :
    (pending_id tail_id : Option Text) (ids : List Text) (t : Text)
    → check_pending pending_id tail_id ids ≡ ok tt
    → pending_id ≡ some t
    → (t ≢ [])
      × (contains_byte b':' t ≡ false)
      × (contains_byte b',' t ≡ false)
      × (tail_id ≢ some t)
      × (contains ids t ≡ false)
unfolding check_pending
check_pending_sound none tail_id ids t h e = cc
check_pending_sound (some p) tail_id ids t h e =
    let same : p ≡ t = cc in
    let (named, h1) =
      reject_then (is_empty p || contains_byte b':' p || contains_byte b',' p) _ _ h in
    let (tail, h2) = reject_then (option_eq tail_id (some p)) _ _ h1 in
    let new = reject-eq-ok (contains ids p) _ h2 in
    let (full, colon, comma) = name_parts p named in
    rw (← same)
      (full, colon, comma, (λ k. cc (option_eq_refl tail_id, ap (option_eq tail_id) k)), new)
  where
    name_parts :
        (u : Text)
        → (is_empty u || contains_byte b':' u || contains_byte b',' u) ≡ false
        → (u ≢ []) × (contains_byte b':' u ≡ false) × (contains_byte b',' u ≡ false)
    name_parts [] k = cc
    name_parts (b ∷ u) k = ((λ z. cc), ground arith, ground arith)

some_and-false :
    (o : Option Text) (ids : List Text) (t : Text)
    → some_and o (λ u. contains ids u) ≡ false
    → o ≡ some t
    → contains ids t ≡ false
some_and-false none ids t h e = cc
some_and-false (some u) ids t h e = ground arith

paired : (a b : Bool) → (not a && b || a && not b) ≡ false → a ≡ b
paired a b h = ground arith

tail_present : (n : ℕ) (b : Bool) → (ltb 0 n && not b) ≡ false → 0 < n → b ≡ true
tail_present n b h p = ground arith

nat_option_eq-some : (o : Option ℕ) (n : ℕ) → nat_option_eq o (some n) ≡ true → o ≡ some n
nat_option_eq-some none n h = cc
nat_option_eq-some (some m) n h = ground arith

seal_named :
    (seal_id : Option Text) (seal_base : Option ℕ) (trunc tail_base : ℕ)
    (last : Option DirectoryEntry) (entry : DirectoryEntry)
    → (ltb trunc tail_base && not (seal_names seal_id seal_base last)) ≡ false
    → trunc < tail_base
    → last ≡ some entry
    → (seal_id ≡ some entry.id) × (seal_base ≡ some entry.base)
seal_named seal_id seal_base trunc tail_base none entry h above e = cc
seal_named seal_id seal_base trunc tail_base (some last) entry h above e =
    let same : last ≡ entry = cc in
    rw (← same) (
      eq_of_option_eq seal_id (some last.id) (ground arith),
      nat_option_eq-some seal_base last.base (ground arith),
    )

counted : (n : ℕ) → not (supported_count n) ≡ false → (n ≡ 1) ⊎ (n ≡ 3) ⊎ (n ≡ 5)
counted n h = ground arith

-- `validate` accepts only registers with the properties that `IsValid` lists.
pub validate-IsValid : (r : ManifestRecord) → validate r ≡ ok tt → IsValid r
unfolding validate
validate-IsValid r h =
    let (pair, h1) = reject_then _ _ _ h in
    let (claim, h2) = reject_then _ _ _ h1 in
    let (ids, walk, h3) = >>=-eq-ok (check_segments r.tail_base [] none r.segments) _ h2 in
    let (tail, h4) = reject_then (some_and r.tail_id (λ t. contains ids t)) _ _ h3 in
    let (_, pending, h5) = >>=-eq-ok (check_pending r.pending_id r.tail_id ids) _ h4 in
    let (seal, h6) = reject_then _ _ _ h5 in
    let (_, h7) = reject_then (length r.buckets == 0) _ _ h6 in
    let (count, h8) = reject_then (not (supported_count (length r.buckets))) _ _ h7 in
    let (names, distinct, _) = check_names_sound r.buckets [] h8 in
    let c = check_segments-Checked r.tail_base r.segments [] none ids walk in
    record {
      seal_paired = paired (is_some r.seal_base) (is_some r.seal_digest) pair;
      claimed = tail_present r.epoch (is_some r.tail_id) claim;
      ordered = c.ordered;
      distinct = c.distinct;
      tail_fresh =
          λ t e. (c.collected t (contains-false ids t (some_and-false r.tail_id ids t tail e))).0;
      pending_fresh = λ t e.
          let (full, colon, comma, other, new) =
            check_pending_sound r.pending_id r.tail_id ids t pending e in
          (full, colon, comma, other, (c.collected t (contains-false ids t new)).0);
      seal_last = λ entry.
          seal_named r.seal_id r.seal_base r.trunc r.tail_base (last? r.segments) entry seal;
      replicas = counted (length r.buckets) count;
      bucket_names = names;
      bucket_distinct = distinct;
    }
