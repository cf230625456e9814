-- ===== src/Lane.antt =====
-- rust/client/src/protocol.rs: quorum sizes, and `LaneBudget`, which bounds the bytes queued for a
-- lane. Every atomic operation is one step on the state; a compare-exchange that is retried until no
-- other thread interferes is the one that succeeds.
pub mod Budget
pub mod Recovery
mod Examples
use chorus.Prelude.{
  ℕ, zero, suc, ◌+◌, ◌-◌, ◌*◌, ◌/◌, ◌%◌, ◌^◌, ◌≤◌, ◌<◌, min, max, ◌≡◌, refl, sym, ap, ◌∙◌, ◌≢◌, ◌↔◌,
  ◌⊎◌, inl, inr, Bool, true, false, not, ◌&&◌, ◌||◌, Option, none, some, List, [], ◌∷◌, ◌++◌, map,
  append_assoc, append-nil, String, arith, ltb, leb, ◌==◌, if◌then◌else◌, ltb→lt, lt→ltb, leb→le,
  le→leb, ==_iff, Bool-cases, Option-cases, u32_max, u64_max, checked_add, length, get_elem?, set,
  take, drop, All, length-append, length-drop, length-take, take-append-drop, take-append_left,
  drop-append_left, drop-nil, drop-drop, All-append, All-drop, Result, ok, err, ◌>>=◌, ◌>>◌, map_ok,
  >>=-eq-ok, Result-cases,
}
use chorus.Commit.{sort, insert_sorted, get_or}

unfoldable pub majority : ℕ → ℕ
majority replica_count = replica_count / 2 + 1

-- `checked_sub`
abbrev pub checked_sub : ℕ → ℕ → Option ℕ
checked_sub a b = if leb b a then some (a - b) else none

abbrev pub supported_size : List ℕ → Option ℕ → Option ℕ
supported_size sizes none = none
supported_size sizes (some zero) = none
supported_size sizes (some (suc support)) =
    some (get_or (sort sizes) (length sizes - suc support) 0)

unfoldable pub select_recovery_size : List ℕ → ℕ → Option ℕ
unfolding majority sort insert_sorted
select_recovery_size sizes replica_count =
    let quorum = majority replica_count in
    if ltb (length sizes) quorum || ltb replica_count (length sizes)
    then none
    else supported_size sizes (checked_sub quorum (replica_count - length sizes))

pub record LaneBudget : Type 0 where
  pub outstanding : ℕ
  pub oversized : Bool
  pub limit : ℕ

-- What a reservation gives back when it is dropped.
pub data LaneCharge : Type 0 where
  ordinary : ℕ → LaneCharge
  oversized : LaneCharge

unfoldable pub new : LaneBudget
new = record { outstanding = 0; oversized = false; limit = u64_max }

unfoldable pub set_limit : ℕ → LaneBudget → LaneBudget
set_limit limit b = record b { limit = limit }

unfoldable pub reserve_oversized : Bool → LaneBudget → Option (LaneCharge × LaneBudget)
reserve_oversized oversized_record b =
    if not oversized_record || b.oversized
    then none
    else some (LaneCharge.oversized, record b { oversized = true })

unfoldable pub reserve_ordinary : ℕ → LaneBudget → Option (LaneCharge × LaneBudget)
reserve_ordinary bytes b = elim (checked_add b.outstanding bytes) [
  | none ↦ none
  | some next ↦
      if ltb b.limit next then none else some (ordinary bytes, record b { outstanding = next })
]

unfoldable pub try_reserve : ℕ → Bool → LaneBudget → Option (LaneCharge × LaneBudget)
unfolding reserve_oversized reserve_ordinary
try_reserve bytes oversized_record b =
    if ltb b.limit bytes then reserve_oversized oversized_record b else reserve_ordinary bytes b

-- The drop of a reservation. `fetch_sub` wraps around.
unfoldable pub release : LaneCharge → LaneBudget → LaneBudget
release (ordinary bytes) b = record b {
  outstanding = (b.outstanding + (u64_max + 1) - bytes) % (u64_max + 1);
}
release oversized b = record b { oversized = false }
