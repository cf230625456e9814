-- ===== src/Lane/Recovery.antt =====
-- What `select_recovery_size` of rust/client/src/protocol.rs selects.
use chorus.Prelude.{
  ℕ, zero, suc, ◌+◌, ◌-◌, ◌/◌, ◌≤◌, ◌≡◌, refl, ◌↔◌, true, false, some, List, arith, ltb, leb,
  length,
}
use chorus.Commit.Watermark.{count_at_least, sorted_index_iff}
use chorus.Lane.{sort, get_or, select_recovery_size, supported_size, majority}

supported_size_iff :
    (sizes : List ℕ) (support : ℕ)
    → 1 ≤ support
    → support ≤ length sizes
    → (size : ℕ) × (supported_size sizes (some support) ≡ some size)
      × ((v : ℕ) → (v ≤ size) ↔ (support ≤ count_at_least v sizes))
supported_size_iff sizes zero positive fits = absurd (omega arith)
supported_size_iff sizes (suc support) positive fits = (
  get_or (sort sizes) (length sizes - suc support) 0,
  refl,
  λ v. sorted_index_iff sizes (suc support) v positive fits,
)

-- If at least a majority of the replicas and not more than all report a size, one is selected: the
-- largest that a majority supports, where a replica that reports none counts as support.
pub select_recovery_size_iff :
    (sizes : List ℕ) (replica_count : ℕ)
    → majority replica_count ≤ length sizes
    → length sizes ≤ replica_count
    → (size : ℕ) × (select_recovery_size sizes replica_count ≡ some size)
      × ((v : ℕ)
          → (v ≤ size)
            ↔ (majority replica_count ≤ count_at_least v sizes + (replica_count - length sizes)))
unfolding select_recovery_size majority
select_recovery_size_iff sizes n enough most =
    let quorum = n / 2 + 1 in
    let support = quorum - (n - length sizes) in
    let (size, found, means) = supported_size_iff sizes support (omega arith) (omega arith) in
    let few : ltb (length sizes) (n / 2 + 1) ≡ false = ground arith in
    let many : ltb n (length sizes) ≡ false = ground arith in
    let room : leb (n - length sizes) (n / 2 + 1) ≡ true = ground arith in
    (
      size,
      rw (few, many, room) found,
      λ v.
          let (to, from) = means v in
          ((λ below. let h = to below in omega arith), λ h. from (omega arith)),
    )
