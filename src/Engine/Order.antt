-- ===== src/Engine/Order.antt =====
-- The account of records that the engine task of rust/client/src/engine.rs keeps: what has been sent,
-- what is pending, queued or in the channel, by record index.
use chorus.Prelude.{
  ℕ, ◌+◌, ◌≤◌, ◌≡◌, refl, ap, ◌&&◌, List, [], ◌∷◌, ◌++◌, append_assoc, arith, ltb, leb, ◌==◌,
  if◌then◌else◌, length,
}
use chorus.Engine.{
  acknowledged, dropped, shutdown, failure, append, receipt, AdmittedAppend, CompletionBatch,
  EngineState, Command, Outcome,
}
use chorus.Engine.Dispatch.{bytes_of}

abbrev pub queued : List Command → List AdmittedAppend
queued [] = []
queued (append a ∷ queue) = a ∷ queued queue
queued (shutdown _ _ ∷ queue) = queued queue

abbrev pub pending : List CompletionBatch → List AdmittedAppend
pending [] = []
pending (batch ∷ batches) = batch.appends ++ pending batches

-- The appends are numbered from the first number to before the second.
abbrev pub Consecutive : ℕ → List AdmittedAppend → ℕ → Type 0
Consecutive n [] m = n ≡ m
Consecutive n (a ∷ appends) m = (a.seqno ≡ n) × Consecutive (n + 1) appends m

unfoldable pub hits : ℕ → ℕ → ℕ
hits i j = if i == j then 1 else 0

unfoldable pub within : ℕ → ℕ → ℕ → ℕ
within n m i = if leb n i && ltb i m then 1 else 0

-- How many outcomes, and how many receipts, a record index has.
unfoldable pub outcomes : ℕ → List Outcome → ℕ
outcomes i [] = 0
outcomes i (receipt j ∷ sent) = hits i j + outcomes i sent
outcomes i (failure j _ ∷ sent) = hits i j + outcomes i sent
outcomes i (dropped j ∷ sent) = hits i j + outcomes i sent
outcomes i (acknowledged _ ∷ sent) = outcomes i sent

unfoldable pub receipts : ℕ → List Outcome → ℕ
receipts i [] = 0
receipts i (receipt j ∷ sent) = hits i j + receipts i sent
receipts i (_ ∷ sent) = receipts i sent

unfoldable pub numbered : ℕ → List AdmittedAppend → ℕ
numbered i [] = 0
numbered i (a ∷ appends) = hits i a.seqno + numbered i appends

pub outcomes-append :
    (i : ℕ) (xs ys : List Outcome) → outcomes i (xs ++ ys) ≡ outcomes i xs + outcomes i ys
unfolding outcomes
outcomes-append i [] ys = omega arith
outcomes-append i (receipt j ∷ xs) ys = omega (arith, outcomes-append i xs ys)
outcomes-append i (failure j e ∷ xs) ys = omega (arith, outcomes-append i xs ys)
outcomes-append i (dropped j ∷ xs) ys = omega (arith, outcomes-append i xs ys)
outcomes-append i (acknowledged j ∷ xs) ys = outcomes-append i xs ys

pub receipts-append :
    (i : ℕ) (xs ys : List Outcome) → receipts i (xs ++ ys) ≡ receipts i xs + receipts i ys
unfolding receipts
receipts-append i [] ys = omega arith
receipts-append i (receipt j ∷ xs) ys = omega (arith, receipts-append i xs ys)
receipts-append i (failure j e ∷ xs) ys = receipts-append i xs ys
receipts-append i (dropped j ∷ xs) ys = receipts-append i xs ys
receipts-append i (acknowledged j ∷ xs) ys = receipts-append i xs ys

pub numbered-append :
    (i : ℕ) (xs ys : List AdmittedAppend) → numbered i (xs ++ ys) ≡ numbered i xs + numbered i ys
unfolding numbered
numbered-append i [] ys = omega arith
numbered-append i (a ∷ xs) ys = omega (arith, numbered-append i xs ys)

pub queued-append : (xs ys : List Command) → queued (xs ++ ys) ≡ queued xs ++ queued ys
queued-append [] ys = refl
queued-append (append a ∷ xs) ys = ap (λ r. a ∷ r) (queued-append xs ys)
queued-append (shutdown _ _ ∷ xs) ys = queued-append xs ys

pub pending-append : (xs ys : List CompletionBatch) → pending (xs ++ ys) ≡ pending xs ++ pending ys
pending-append [] ys = refl
pending-append (batch ∷ xs) ys = rw (pending-append xs ys, append_assoc)

pub bytes_of-append :
    (xs ys : List AdmittedAppend) → bytes_of (xs ++ ys) ≡ bytes_of xs + bytes_of ys
bytes_of-append [] ys = omega arith
bytes_of-append (a ∷ xs) ys = omega (arith, bytes_of-append xs ys)

pub Consecutive-append :
    (n k m : ℕ) (xs ys : List AdmittedAppend)
    → Consecutive n xs k
    → Consecutive k ys m
    → Consecutive n (xs ++ ys) m
Consecutive-append n k m [] ys p q = rw p q
Consecutive-append n k m (a ∷ xs) ys (e, p) q = (e, Consecutive-append (n + 1) k m xs ys p q)

pub Consecutive-split :
    (n m : ℕ) (xs ys : List AdmittedAppend)
    → Consecutive n (xs ++ ys) m
    → (k : ℕ) × Consecutive n xs k × Consecutive k ys m
Consecutive-split n m [] ys p = (n, refl, p)
Consecutive-split n m (a ∷ xs) ys (e, p) =
    let (k, q, r) = Consecutive-split (n + 1) m xs ys p in (k, (e, q), r)

pub Consecutive-le : (n m : ℕ) (xs : List AdmittedAppend) → Consecutive n xs m → n ≤ m
Consecutive-le n m [] p = omega arith
Consecutive-le n m (a ∷ xs) (e, p) = omega (arith, Consecutive-le (n + 1) m xs p)

pub numbered-Consecutive :
    (i n m : ℕ) (xs : List AdmittedAppend) → Consecutive n xs m → numbered i xs ≡ within n m i
unfolding numbered within hits
numbered-Consecutive i n m [] p = ground arith
numbered-Consecutive i n m (a ∷ xs) (e, p) =
    let rest = numbered-Consecutive i (n + 1) m xs p in
    let order = Consecutive-le (n + 1) m xs p in ground arith

-- While the engine runs. `pend` are the pending appends, `commands` those in the channel, `next` the
-- handle's next sequence number.
pub record Account (start : ℕ) (s : EngineState) (pend : List AdmittedAppend)
    (commands : List Command) (next : ℕ) : Type 0 where
  pub begun : start ≤ s.next_completion
  pub resolved : (i : ℕ) → outcomes i s.sent ≡ within start s.next_completion i
  pub receipted : (i : ℕ) → receipts i s.sent ≡ within start s.next_completion i
  pub waiting : Consecutive s.next_completion (pend ++ queued s.queue) s.next_admission
  pub arriving : Consecutive s.next_admission (queued commands) next
  pub records : s.pending_records ≡ length pend
  pub bytes : s.pending_bytes ≡ bytes_of pend

-- Once the engine has stopped: every index from `start` to before `next` has exactly one outcome and
-- no other index has any; those before `committed`, and no others, have a receipt.
pub record Settled (start : ℕ) (sent : List Outcome) (next : ℕ) : Type 0 where
  pub committed : ℕ
  pub begun : start ≤ committed
  pub ended : committed ≤ next
  pub resolved : (i : ℕ) → outcomes i sent ≡ within start next i
  pub receipted : (i : ℕ) → receipts i sent ≡ within start committed i
