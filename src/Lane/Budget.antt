-- ===== src/Lane/Budget.antt =====
-- What `LaneBudget` of rust/client/src/protocol.rs accounts for while reservations are taken and
-- dropped in any order.
use chorus.Prelude.{
  ℕ, suc, ◌+◌, ◌≤◌, ◌≡◌, refl, ap, ◌∙◌, inl, inr, Bool, true, false, not, ◌||◌, none, some, List,
  [], ◌∷◌, ◌++◌, arith, ltb, leb, if◌then◌else◌, leb→le, Bool-cases, u64_max,
}
use mathlib.Core.Path.{subst}
use chorus.Lane.{
  set_limit, reserve_ordinary, reserve_oversized, ordinary, new, LaneCharge, release, try_reserve,
  LaneBudget,
}

pub bytes_held : List LaneCharge → ℕ
bytes_held [] = 0
bytes_held (ordinary bytes ∷ held) = bytes + bytes_held held
bytes_held (LaneCharge.oversized ∷ held) = bytes_held held

pub oversized_held : List LaneCharge → ℕ
oversized_held [] = 0
oversized_held (ordinary bytes ∷ held) = oversized_held held
oversized_held (LaneCharge.oversized ∷ held) = suc (oversized_held held)

-- The budgets that threads lead to, with the reservations that are alive.
pub data Held : List LaneCharge → LaneBudget → Type 0 where
  started : Held [] new
  limited :
      {held : List LaneCharge} {b : LaneBudget} (limit : ℕ)
      → Held held b
      → Held held (set_limit limit b)
  reserved :
      {held : List LaneCharge} {b after : LaneBudget} {charge : LaneCharge} (bytes : ℕ) (big : Bool)
      → try_reserve bytes big b ≡ some (charge, after)
      → Held held b
      → Held (charge ∷ held) after
  dropped :
      {b : LaneBudget} (older newer : List LaneCharge) (charge : LaneCharge)
      → Held (newer ++ charge ∷ older) b
      → Held (newer ++ older) (release charge b)

pub record Accounts (held : List LaneCharge) (b : LaneBudget) : Type 0 where
  pub bytes : b.outstanding ≡ bytes_held held
  pub no_overflow : b.outstanding ≤ u64_max
  pub flag : (if b.oversized then 1 else 0) ≡ oversized_held held

bytes_held-remove :
    (newer older : List LaneCharge) (charge : LaneCharge)
    → bytes_held (newer ++ charge ∷ older) ≡ bytes_held (charge ∷ []) + bytes_held (newer ++ older)
unfolding bytes_held
bytes_held-remove [] older (ordinary n) = omega arith
bytes_held-remove [] older LaneCharge.oversized = omega arith
bytes_held-remove (ordinary n ∷ newer) older charge =
    omega (arith, bytes_held-remove newer older charge)
bytes_held-remove (LaneCharge.oversized ∷ newer) older charge = bytes_held-remove newer older charge

oversized_held-remove :
    (newer older : List LaneCharge) (charge : LaneCharge)
    → oversized_held (newer ++ charge ∷ older)
      ≡ oversized_held (charge ∷ []) + oversized_held (newer ++ older)
unfolding oversized_held
oversized_held-remove [] older (ordinary n) = omega arith
oversized_held-remove [] older LaneCharge.oversized = omega arith
oversized_held-remove (ordinary n ∷ newer) older charge = oversized_held-remove newer older charge
oversized_held-remove (LaneCharge.oversized ∷ newer) older charge =
    omega (arith, oversized_held-remove newer older charge)

-- A successful attempt determines the charge and the budget.
some_eq :
    (P : LaneCharge × LaneBudget → Type 0) (made got : LaneCharge × LaneBudget)
    → some made ≡ some got
    → P made
    → P got
some_eq P made got e p = subst (λ o. elim o [ none ↦ P made | some r ↦ P r ]) e p

reserve_oversized-Accounts :
    (held : List LaneCharge) (b : LaneBudget) (got : LaneCharge × LaneBudget) (big : Bool)
    → Accounts held b
    → reserve_oversized big b ≡ some got
    → Accounts (got.0 ∷ held) got.1
unfolding reserve_oversized bytes_held oversized_held
reserve_oversized-Accounts held b got big a = elim (Bool-cases (not big || b.oversized)) [
  | inl e ↦ rw (e, reserve_oversized) (λ h. absurd (ground arith))
  | inr e ↦
      rw (e, reserve_oversized)
        (λ h.
          some_eq (λ r. Accounts (r.0 ∷ held) r.1)
            (LaneCharge.oversized, record b { oversized = true }) got h
            (record {
              bytes = a.bytes;
              no_overflow = a.no_overflow;
              flag =
                  let free : b.oversized ≡ false = ground arith in ap suc ((rw free refl) ∙ a.flag);
            }))
]

reserve_ordinary-Accounts :
    (held : List LaneCharge) (b : LaneBudget) (got : LaneCharge × LaneBudget) (bytes : ℕ)
    → Accounts held b
    → reserve_ordinary bytes b ≡ some got
    → Accounts (got.0 ∷ held) got.1
unfolding reserve_ordinary bytes_held oversized_held
reserve_ordinary-Accounts held b got bytes a =
    elim (Bool-cases (leb (b.outstanding + bytes) u64_max)) [
      | inr e ↦ rw (e, reserve_ordinary) (λ h. absurd (ground arith))
      | inl e ↦ elim (Bool-cases (ltb b.limit (b.outstanding + bytes))) [
        | inl e' ↦ rw (e, e', reserve_ordinary) (λ h. absurd (ground arith))
        | inr e' ↦
            rw (e, e', reserve_ordinary)
              (λ h.
                some_eq (λ r. Accounts (r.0 ∷ held) r.1)
                  (ordinary bytes, record b { outstanding = b.outstanding + bytes }) got h
                  (record {
                    bytes = let x = a.bytes in omega arith;
                    no_overflow = leb→le (b.outstanding + bytes) u64_max e;
                    flag = a.flag;
                  }))
      ]
    ]

reserve-Accounts :
    (held : List LaneCharge) (b : LaneBudget) (got : LaneCharge × LaneBudget) (bytes : ℕ)
    (big : Bool)
    → Accounts held b
    → try_reserve bytes big b ≡ some got
    → Accounts (got.0 ∷ held) got.1
unfolding try_reserve
reserve-Accounts held b got bytes big a = elim (Bool-cases (ltb b.limit bytes)) [
  | inl e ↦ rw (e, try_reserve) (reserve_oversized-Accounts held b got big a)
  | inr e ↦ rw (e, try_reserve) (reserve_ordinary-Accounts held b got bytes a)
]

release-Accounts :
    (newer older : List LaneCharge) (b : LaneBudget) (charge : LaneCharge)
    → Accounts (newer ++ charge ∷ older) b
    → Accounts (newer ++ older) (release charge b)
unfolding release bytes_held oversized_held
release-Accounts newer older b (ordinary n) a =
    let split = bytes_held-remove newer older (ordinary n) in
    let same = oversized_held-remove newer older (ordinary n) in
    let flag = a.flag in
    let x = a.bytes in
    let y = a.no_overflow in
    record { bytes = omega arith; no_overflow = omega arith; flag = a.flag ∙ (omega arith) }
release-Accounts newer older b LaneCharge.oversized a =
    let split = bytes_held-remove newer older LaneCharge.oversized in
    let same = oversized_held-remove newer older LaneCharge.oversized in
    record {
      bytes = a.bytes ∙ (omega arith);
      no_overflow = a.no_overflow;
      flag = let x = a.flag in ground arith;
    }

-- Whatever reservations are taken and dropped, in any order, the outstanding bytes are those of the
-- ordinary reservations alive, within 64 bits, and the flag is set exactly while the one oversized
-- reservation is alive.
pub Held-Accounts : (held : List LaneCharge) (b : LaneBudget) → Held held b → Accounts held b
unfolding new set_limit bytes_held oversized_held
Held-Accounts held b Held.started = record { bytes = refl; no_overflow = omega arith; flag = refl }
Held-Accounts held b (limited {b = before} limit h) =
    let a = Held-Accounts held before h in
    record { bytes = a.bytes; no_overflow = a.no_overflow; flag = a.flag }
Held-Accounts held b (reserved {held = rest} {b = before} {charge = charge} bytes big e h) =
    reserve-Accounts rest before (charge, b) bytes big (Held-Accounts rest before h) e
Held-Accounts held b (dropped {b = before} older newer charge h) =
    release-Accounts newer older before charge (Held-Accounts (newer ++ charge ∷ older) before h)
