-- ===== src/Engine/Settle.antt =====
-- The exits of the engine task of rust/client/src/engine.rs: each gives every record that is left one
-- outcome.
use chorus.Prelude.{ℕ, ◌+◌, ◌≤◌, ◌≡◌, refl, ap, Option, none, some, List, [], ◌∷◌, ◌++◌, arith}
use chorus.Errors.{Error}
use chorus.Engine.{
  failure, fail_first, fail_front, watch_failed, RecordCommitRange, respond, shutdown, append,
  poison, finish, fail_queued, stop_admission, fail_appends, fail_commands, drop_appends,
  fail_batches, fail_all, drop_batches, fail_completion_batches, drop_commands, AdmittedAppend,
  CompletionBatch, EngineState, Command, Outcome, Receiver,
}
use chorus.Engine.Order.{
  numbered-append, receipts-append, queued-append, outcomes-append, receipts, within, outcomes,
  numbered, pending, queued, Settled,
}

outcomes-fail_appends :
    (i : ℕ) (e : Error) (xs : List AdmittedAppend)
    → (outcomes i (fail_appends e xs) ≡ numbered i xs) × (receipts i (fail_appends e xs) ≡ 0)
unfolding fail_appends outcomes receipts numbered
outcomes-fail_appends i e [] = (refl, refl)
outcomes-fail_appends i e (a ∷ xs) = let (o, r) = outcomes-fail_appends i e xs in (omega arith, r)

outcomes-drop_appends :
    (i : ℕ) (xs : List AdmittedAppend)
    → (outcomes i (drop_appends xs) ≡ numbered i xs) × (receipts i (drop_appends xs) ≡ 0)
unfolding drop_appends outcomes receipts numbered
outcomes-drop_appends i [] = (refl, refl)
outcomes-drop_appends i (a ∷ xs) = let (o, r) = outcomes-drop_appends i xs in (omega arith, r)

outcomes-fail_commands :
    (i : ℕ) (e : Error) (xs : List Command)
    → (outcomes i (fail_commands e xs) ≡ numbered i (queued xs))
      × (receipts i (fail_commands e xs) ≡ 0)
unfolding fail_commands outcomes receipts numbered
outcomes-fail_commands i e [] = (refl, refl)
outcomes-fail_commands i e (append a ∷ xs) =
    let (o, r) = outcomes-fail_commands i e xs in (omega arith, r)
outcomes-fail_commands i e (shutdown _ _ ∷ xs) = outcomes-fail_commands i e xs

outcomes-drop_commands :
    (i : ℕ) (xs : List Command)
    → (outcomes i (drop_commands xs) ≡ numbered i (queued xs)) × (receipts i (drop_commands xs) ≡ 0)
unfolding drop_commands outcomes receipts numbered
outcomes-drop_commands i [] = (refl, refl)
outcomes-drop_commands i (append a ∷ xs) =
    let (o, r) = outcomes-drop_commands i xs in (omega arith, r)
outcomes-drop_commands i (shutdown _ _ ∷ xs) = outcomes-drop_commands i xs

outcomes-fail_batches :
    (i : ℕ) (e : Error) (xs : List CompletionBatch)
    → (outcomes i (fail_batches e xs) ≡ numbered i (pending xs))
      × (receipts i (fail_batches e xs) ≡ 0)
unfolding fail_batches outcomes receipts numbered
outcomes-fail_batches i e [] = (refl, refl)
outcomes-fail_batches i e (batch ∷ xs) =
    let (o, r) = outcomes-fail_batches i e xs in
    let (o', r') = outcomes-fail_appends i e batch.appends in
    let joined = outcomes-append i (fail_appends e batch.appends) (fail_batches e xs) in
    let joined' = receipts-append i (fail_appends e batch.appends) (fail_batches e xs) in
    let sum = numbered-append i batch.appends (pending xs) in (omega arith, omega arith)

outcomes-drop_batches :
    (i : ℕ) (xs : List CompletionBatch)
    → (outcomes i (drop_batches xs) ≡ numbered i (pending xs)) × (receipts i (drop_batches xs) ≡ 0)
unfolding drop_batches outcomes receipts numbered
outcomes-drop_batches i [] = (refl, refl)
outcomes-drop_batches i (batch ∷ xs) =
    let (o, r) = outcomes-drop_batches i xs in
    let (o', r') = outcomes-drop_appends i batch.appends in
    let joined = outcomes-append i (drop_appends batch.appends) (drop_batches xs) in
    let joined' = receipts-append i (drop_appends batch.appends) (drop_batches xs) in
    let sum = numbered-append i batch.appends (pending xs) in (omega arith, omega arith)

-- What is left of a state, `extra` appends that a pass has taken out of it included.
unfoldable pub left_over : ℕ → EngineState → List AdmittedAppend → List Command → ℕ
left_over i s extra commands =
    numbered i (pending s.completion_batches)
    + (numbered i (queued s.queue) + (numbered i (queued commands) + numbered i extra))

-- Every index from `start` to before `next` has one outcome, or is left; those before `committed`
-- have a receipt.
pub record Balance (start committed : ℕ) (s : EngineState) (extra : List AdmittedAppend)
    (commands : List Command) (next : ℕ) : Type 0 where
  pub begun : start ≤ committed
  pub ended : committed ≤ next
  pub balance : (i : ℕ) → outcomes i s.sent + left_over i s extra commands ≡ within start next i
  pub receipted : (i : ℕ) → receipts i s.sent ≡ within start committed i

outcomes-respond :
    (i : ℕ) (o : Option ℕ) → (outcomes i (respond o) ≡ 0) × (receipts i (respond o) ≡ 0)
unfolding outcomes receipts
outcomes-respond i none = (refl, refl)
outcomes-respond i (some response) = (refl, refl)

-- What the end of the task sends.
abbrev rest_of : EngineState → Receiver → List Outcome
rest_of s rx =
    respond s.shutdown_response
    ++ (drop_batches s.completion_batches ++ (drop_commands s.queue ++ drop_commands rx.commands))

outcomes-rest :
    (i : ℕ) (s : EngineState) (rx : Receiver)
    → (outcomes i (rest_of s rx) ≡ left_over i s [] rx.commands) × (receipts i (rest_of s rx) ≡ 0)
unfolding left_over numbered
outcomes-rest i s rx =
    let answer = respond s.shutdown_response in
    let batches = drop_batches s.completion_batches in
    let queue = drop_commands s.queue in
    let commands = drop_commands rx.commands in
    let (o1, r1) = outcomes-respond i s.shutdown_response in
    let (o2, r2) = outcomes-drop_batches i s.completion_batches in
    let (o3, r3) = outcomes-drop_commands i s.queue in
    let (o4, r4) = outcomes-drop_commands i rx.commands in
    let p1 = outcomes-append i answer (batches ++ (queue ++ commands)) in
    let p2 = outcomes-append i batches (queue ++ commands) in
    let p3 = outcomes-append i queue commands in
    let q1 = receipts-append i answer (batches ++ (queue ++ commands)) in
    let q2 = receipts-append i batches (queue ++ commands) in
    let q3 = receipts-append i queue commands in (omega arith, omega arith)

module _ (start committed next : ℕ) where
  pub stop_admission-Balance :
      (s : EngineState) (extra : List AdmittedAppend) (rx : Receiver)
      → Balance start committed s extra rx.commands next
      → Balance start committed (stop_admission s rx).0 extra [] next
  unfolding stop_admission left_over numbered
  stop_admission-Balance s extra rx b = record {
    begun = b.begun;
    ended = b.ended;
    balance = λ i.
        let h = b.balance i in
        let moved = ap (numbered i) (queued-append s.queue rx.commands) in
        let sum = numbered-append i (queued s.queue) (queued rx.commands) in omega arith;
    receipted = b.receipted;
  }

  -- Outcomes that are no receipts leave, for appends that are no longer left.
  pub emit-Balance :
      (s s' : EngineState) (extra extra' : List AdmittedAppend) (commands : List Command)
      (out : List Outcome)
      → s'.sent ≡ s.sent ++ out
      → ((i : ℕ)
          → (left_over i s extra commands ≡ outcomes i out + left_over i s' extra' commands)
            × (receipts i out ≡ 0))
      → Balance start committed s extra commands next
      → Balance start committed s' extra' commands next
  emit-Balance s s' extra extra' commands out same moved b = record {
    begun = b.begun;
    ended = b.ended;
    balance = λ i.
        let h = b.balance i in
        let m = (moved i).0 in
        let sent = ap (outcomes i) same in let joined = outcomes-append i s.sent out in omega arith;
    receipted = λ i.
        let h = b.receipted i in
        let m = (moved i).1 in
        let sent = ap (receipts i) same in let joined = receipts-append i s.sent out in omega arith;
  }

  pub fail_all-Balance :
      (e : Error) (s : EngineState) (extra : List AdmittedAppend) (commands : List Command)
      → Balance start committed s extra commands next
      → Balance start committed (fail_all e s) extra commands next
  unfolding fail_all left_over numbered
  fail_all-Balance e s extra commands =
      emit-Balance s (fail_all e s) extra extra commands (fail_commands e s.queue) refl
        (λ i. let (o, r) = outcomes-fail_commands i e s.queue in (omega arith, r))

  pub fail_completion_batches-Balance :
      (e : Error) (s : EngineState) (extra : List AdmittedAppend)
      → Balance start committed s extra [] next
      → Balance start committed (fail_completion_batches e s) extra [] next
  unfolding fail_completion_batches left_over numbered
  fail_completion_batches-Balance e s extra =
      emit-Balance s (fail_completion_batches e s) extra extra []
        (fail_batches e s.completion_batches) refl
        (λ i. let (o, r) = outcomes-fail_batches i e s.completion_batches in (omega arith, r))

  -- Appends taken out are failed.
  pub fail_appends-Balance :
      (e : Error) (s : EngineState) (extra : List AdmittedAppend) (commands : List Command)
      → Balance start committed s extra commands next
      → Balance start committed
          (record s { sent = s.sent ++ fail_appends e extra })
          []
          commands
          next
  unfolding left_over numbered
  fail_appends-Balance e s extra commands =
      emit-Balance s (record s { sent = s.sent ++ fail_appends e extra }) extra [] commands
        (fail_appends e extra) refl
        (λ i. let (o, r) = outcomes-fail_appends i e extra in (omega arith, r))

  pub poison-Balance :
      (s : EngineState) (rx : Receiver)
      → Balance start committed s [] rx.commands next
      → Balance start committed (poison s rx).0 [] [] next
  unfolding poison
  poison-Balance s rx b =
      fail_all-Balance Error.poisoned
        (fail_completion_batches Error.poisoned (stop_admission s rx).0) [] []
        (fail_completion_batches-Balance Error.poisoned (stop_admission s rx).0 []
          (stop_admission-Balance s [] rx b))

  pub fail_queued-Balance :
      (e : Error) (s : EngineState) (rx : Receiver)
      → Balance start committed s [] rx.commands next
      → Balance start committed (fail_queued e s rx).0 [] [] next
  unfolding fail_queued
  fail_queued-Balance e s rx b =
      fail_all-Balance e (stop_admission s rx).0 [] [] (stop_admission-Balance s [] rx b)

  fail_first-Balance :
      (e : Error) (commits : RecordCommitRange) (appends : List AdmittedAppend)
      (batches : List CompletionBatch) (s : EngineState) (commands : List Command)
      → pending s.completion_batches ≡ appends ++ pending batches
      → Balance start committed s [] commands next
      → Balance start committed (fail_first e commits appends batches s) [] commands next
  unfolding left_over numbered outcomes receipts
  fail_first-Balance e commits [] batches s commands same = λ b. b
  fail_first-Balance e commits (a ∷ appends) batches s commands same =
      emit-Balance s (fail_first e commits (a ∷ appends) batches s) [] [] commands
        (failure a.seqno e ∷ []) refl (λ i. let h = ap (numbered i) same in (omega arith, refl))

  fail_front-Balance :
      (e : Error) (batches : List CompletionBatch) (s : EngineState) (commands : List Command)
      → s.completion_batches ≡ batches
      → Balance start committed s [] commands next
      → Balance start committed (fail_front e batches s) [] commands next
  unfolding fail_front
  fail_front-Balance e [] s commands same b = b
  fail_front-Balance e (batch ∷ batches) s commands same b =
      fail_first-Balance e batch.commits batch.appends batches s commands (ap pending same) b

  pub watch_failed-Balance :
      (e : Error) (s : EngineState) (rx : Receiver)
      → Balance start committed s [] rx.commands next
      → Balance start committed (watch_failed e s rx).0 [] [] next
  unfolding watch_failed
  watch_failed-Balance e s rx b =
      let s' = (stop_admission s rx).0 in
      let s'' = fail_front e s'.completion_batches s' in
      fail_all-Balance Error.poisoned (fail_completion_batches Error.poisoned s'') [] [] (
        fail_completion_batches-Balance Error.poisoned s'' [] (
          fail_front-Balance e s'.completion_batches s' [] refl (stop_admission-Balance s [] rx b)))

  -- The end of the task settles whatever is left.
  pub finish-Settled :
      (s : EngineState) (rx : Receiver)
      → Balance start committed s [] rx.commands next
      → Settled start (finish s rx) next
  unfolding finish
  finish-Settled s rx b = record {
    committed = committed;
    begun = b.begun;
    ended = b.ended;
    resolved = λ i.
        let h = b.balance i in
        let (o, _) = outcomes-rest i s rx in
        let joined = outcomes-append i s.sent (rest_of s rx) in omega arith;
    receipted = λ i.
        let h = b.receipted i in
        let (_, r) = outcomes-rest i s rx in
        let joined = receipts-append i s.sent (rest_of s rx) in omega arith;
  }
