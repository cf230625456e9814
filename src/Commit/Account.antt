-- ===== src/Commit/Account.antt =====
-- The account of records that `CommitTracker` of rust/client/src/protocol.rs keeps, and that resolving
-- boundaries keeps it.
use chorus.Prelude.{
  ℕ, ◌+◌, ◌≤◌, ◌≡◌, refl, sym, ap, ◌∙◌, inl, inr, Bool, true, false, ◌||◌, Option, none, some, List,
  [], ◌∷◌, ◌++◌, append_assoc, arith, leb, leb→le, Bool-cases, Option-cases, length, All,
  length-append, All-append,
}
use chorus.Commit.{
  quorum_durable_watermark, recompute, CommitFailure, is_some, failed_boundary, publish, settle,
  Drained, durables, inl, leb, Bool-cases, ◌∷◌, arith, Bool, CommitTracker, last_or, drain, List,
  LaneCommitState,
}
use chorus.Commit.Watermark.{count_at_least, quorum_durable_watermark_iff}

-- A boundary that at least a quorum of lanes has durable.
abbrev pub Supported : ℕ → List LaneCommitState → ℕ → Type 0
Supported quorum lanes boundary = quorum ≤ count_at_least boundary (durables lanes)

-- What a tracker keeps of the boundaries admitted so far: it resolved a prefix of them, each with
-- the support of a quorum, and holds the rest in order.
pub record Inv (count quorum : ℕ) (log : List ℕ) (t : CommitTracker) : Type 0 where
  pub resolved : List ℕ
  pub split : log ≡ resolved ++ t.state.boundaries
  pub committed : t.state.committed ≡ length resolved
  pub admitted : t.state.admitted ≡ length log
  pub bytes : t.state.committed_bytes ≡ last_or 0 resolved
  pub supported : All (Supported quorum t.state.lanes) resolved
  pub lanes : length t.state.lanes ≡ count
  pub same_quorum : t.quorum ≡ quorum
  pub published : t.updates ≡ record { committed = t.state.committed; failure = t.state.failure }

last_or-append : (d : ℕ) (xs ys : List ℕ) → last_or d (xs ++ ys) ≡ last_or (last_or d xs) ys
last_or-append d [] ys = refl
last_or-append d (x ∷ xs) ys = last_or-append x xs ys

-- What the loop did to the boundaries from which it started.
pub record DrainResult (watermark : ℕ) (boundaries : List ℕ) (count byte_count : ℕ) (changed : Bool)
    (d : Drained) : Type 0 where
  pub prefix : List ℕ
  pub split : boundaries ≡ prefix ++ d.boundaries
  pub below : All (λ b. b ≤ watermark) prefix
  pub committed : d.committed ≡ count + length prefix
  pub bytes : d.committed_bytes ≡ last_or byte_count prefix
  pub unchanged : d.changed ≡ false → (changed ≡ false) × (prefix ≡ [])

pub drain_lem :
    (watermark : ℕ) (boundaries : List ℕ) (committed bytes : ℕ) (changed : Bool)
    → DrainResult watermark boundaries committed bytes changed
        (drain watermark boundaries committed bytes changed)
unfolding drain
drain_lem watermark [] committed bytes changed = record {
  prefix = [];
  split = refl;
  below = tt;
  committed = omega arith;
  bytes = refl;
  unchanged = λ e. (e, refl);
}
drain_lem watermark (b ∷ bs) committed bytes changed = elim (Bool-cases (leb b watermark)) [
  | inl e ↦
      let rest = drain_lem watermark bs (committed + 1) b true in
      rw (e, drain)
        (record {
          prefix = b ∷ rest.prefix;
          split = ap (λ xs. b ∷ xs) rest.split;
          below = (leb→le b watermark e, rest.below);
          committed = omega (arith, rest.committed);
          bytes = rest.bytes;
          unchanged = λ u. absurd (ground (arith, (rest.unchanged u).0));
        })
  | inr e ↦
      rw (e, drain)
        (record {
          prefix = [];
          split = refl;
          below = tt;
          committed = omega arith;
          bytes = refl;
          unchanged = λ u. (u, refl);
        })
]

pub All-map {ℓ κ} :
    {A : Type ℓ} (P Q : A → Type κ) (xs : List A) → ((x : A) → P x → Q x) → All P xs → All Q xs
All-map P Q [] f a = tt
All-map P Q (x ∷ xs) f a = (f x a.0, All-map P Q xs f a.1)

or-false : (a b : Bool) → (a || b) ≡ false → (a ≡ false) × (b ≡ false)
or-false true b e = absurd (ground arith)
or-false false b e = (refl, e)

is_some-false : (f : Option CommitFailure) → is_some f ≡ false → f ≡ none
is_some-false none e = refl
is_some-false (some f) e = absurd (ground arith)

settle-Inv :
    (count quorum : ℕ) (log : List ℕ) (t : CommitTracker) (watermark : ℕ) (d : Drained)
    → ((b : ℕ) → b ≤ watermark → Supported quorum t.state.lanes b)
    → t.state.failure ≡ none
    → Inv count quorum log t
    → DrainResult watermark t.state.boundaries t.state.committed t.state.committed_bytes false d
    → Inv count quorum log (settle t d)
unfolding settle publish
settle-Inv count quorum log t watermark d support live inv r =
    let failure = failed_boundary t.quorum t.state.lanes d.boundaries in
    let resolved = inv.resolved ++ r.prefix in
    let split : log ≡ resolved ++ d.boundaries =
      (inv.split
        ∙ ap (λ xs. inv.resolved ++ xs) r.split
        ∙ sym (append_assoc inv.resolved r.prefix d.boundaries)) in
    let committed : d.committed ≡ length resolved =
      omega (arith, length-append inv.resolved r.prefix, r.committed, inv.committed) in
    let bytes : d.committed_bytes ≡ last_or 0 resolved =
      (r.bytes
        ∙ ap (λ n. last_or n r.prefix) inv.bytes
        ∙ sym (last_or-append 0 inv.resolved r.prefix)) in
    let supported : All (Supported quorum t.state.lanes) resolved =
      All-append (Supported quorum t.state.lanes) inv.resolved r.prefix inv.supported
        (All-map (λ b. b ≤ watermark) (Supported quorum t.state.lanes) r.prefix support r.below) in
    let unpublished : (d.changed || is_some failure) ≡ false
        → t.updates ≡ record { committed = d.committed; failure = failure } =
      λ e.
        let (unchanged, unfailed) = or-false d.changed (is_some failure) e in
        let empty = (r.unchanged unchanged).1 in
        let size = ap length empty in
        let same : d.committed ≡ t.state.committed = omega (arith, r.committed, size) in
        let failure_none = is_some-false failure unfailed in let before = inv.published in cc in
    elim (Bool-cases (d.changed || is_some failure)) [
      | inl e ↦ rw e (record {
        resolved = resolved;
        split = split;
        committed = committed;
        admitted = inv.admitted;
        bytes = bytes;
        supported = supported;
        lanes = inv.lanes;
        same_quorum = inv.same_quorum;
        published = refl;
      })
      | inr e ↦ rw e (record {
        resolved = resolved;
        split = split;
        committed = committed;
        admitted = inv.admitted;
        bytes = bytes;
        supported = supported;
        lanes = inv.lanes;
        same_quorum = inv.same_quorum;
        published = unpublished e;
      })
    ]

module _ (count quorum : ℕ) (positive : 1 ≤ quorum) (fits : quorum ≤ count) where
  pub recompute-Inv :
      (log : List ℕ) (t : CommitTracker)
      → Inv count quorum log t
      → Inv count quorum log (recompute t)
  unfolding recompute
  recompute-Inv log t inv = elim (Option-cases t.state.failure) [
    | inl live ↦
        let watermark = quorum_durable_watermark t.state.lanes t.quorum in
        let result =
          drain_lem watermark t.state.boundaries t.state.committed t.state.committed_bytes false in
        let len = inv.lanes in
        let q = inv.same_quorum in
        rw (live, recompute)
          (settle-Inv count quorum log t watermark
            (drain watermark t.state.boundaries t.state.committed t.state.committed_bytes false)
            (λ b below.
              let enough =
                (quorum_durable_watermark_iff t.state.lanes t.quorum b (omega arith)
                    (omega arith)).0
                  below in
              omega arith)
            live inv result)
    | inr (f, failed) ↦ rw (failed, recompute) inv
  ]
