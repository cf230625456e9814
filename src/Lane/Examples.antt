-- ===== src/Lane/Examples.antt =====
-- Concrete budgets and recovery sizes of rust/client/src/protocol.rs.
use chorus.Prelude.{ℕ, ◌+◌, ◌-◌, ◌≤◌, ◌≡◌, refl, ◌↔◌, true, false, some, [], ◌∷◌, arith}
use chorus.Commit.{sort, insert_sorted}
use chorus.Commit.Watermark.{count_at_least}
use chorus.Lane.{
  new, LaneCharge, reserve_ordinary, reserve_oversized, try_reserve, set_limit,
  select_recovery_size, majority, LaneBudget,
}
use chorus.Lane.Recovery.{select_recovery_size_iff}
use chorus.Lane.Budget.{Held, Accounts, Held-Accounts}

two_reported : majority 3 ≤ 2
unfolding majority
two_reported = omega arith

select_recovery_size_iff_example :
    (size : ℕ) × (select_recovery_size (30 ∷ 10 ∷ []) 3 ≡ some size)
    × ((v : ℕ) → (v ≤ size) ↔ (majority 3 ≤ count_at_least v (30 ∷ 10 ∷ []) + (3 - 2)))
select_recovery_size_iff_example =
    select_recovery_size_iff (30 ∷ 10 ∷ []) 3 two_reported (omega arith)

recovery_size_test : select_recovery_size (30 ∷ 10 ∷ []) 3 ≡ some 30
unfolding select_recovery_size sort insert_sorted majority
recovery_size_test = refl

abbrev budget : ℕ → LaneBudget
budget outstanding = record { outstanding = outstanding; oversized = true; limit = 100 }

taken_oversized : try_reserve 200 true (set_limit 100 new) ≡ some (LaneCharge.oversized, budget 0)
unfolding new set_limit try_reserve reserve_oversized
taken_oversized = refl

taken_ordinary : try_reserve 40 false (budget 0) ≡ some (LaneCharge.ordinary 40, budget 40)
unfolding try_reserve reserve_ordinary
taken_ordinary = refl

Held-Accounts_example : Accounts (LaneCharge.ordinary 40 ∷ LaneCharge.oversized ∷ []) (budget 40)
Held-Accounts_example =
    Held-Accounts (LaneCharge.ordinary 40 ∷ LaneCharge.oversized ∷ []) (budget 40) (
      Held.reserved 40 false taken_ordinary
        (Held.reserved 200 true taken_oversized (Held.limited 100 Held.started)))
