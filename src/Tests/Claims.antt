-- ===== src/Tests/Claims.antt =====
-- Claims and their finalization.
use offline_pay.Base.{◌≡◌, refl, ◌⊎◌, none, some, List, [], ◌∷◌, arith, length}
use offline_pay.Base.Int.{pos, ◌+ℤ◌, ◌-ℤ◌, ◌<ℤ◌}
use offline_pay.Domain.Status.{settled, rejected, completed}
use offline_pay.Domain.Tokens.{Ident}
use offline_pay.Store.Rows.{self_pay, Account, receiving_pending}
use offline_pay.Store.Accounts.{account_of}
use offline_pay.Store.Monad.{World, ok, world_of}
use offline_pay.Store.Payments.{payment_by_sequence}
use offline_pay.Store.Gauge.Conserved.{Conserved}
use offline_pay.Store.Runs.{Runs}
use offline_pay.Settlement.Types.{ClaimItem, SettlementResult, SettlementBatch, rejection}
use offline_pay.Settlement.Accept.{accept, accepted}
use offline_pay.Settlement.Submit.{submit_one, submit_claim}
use offline_pay.Settlement.Finalize.{finalize_for_payer}
use offline_pay.Settlement.Calls.{settlement_calls}
use offline_pay.Settlement.Submitted.{submit_claim-Conserved}
use offline_pay.Settlement.Finalized.{finalize_for_payer-Conserved}
use offline_pay.Settlement.Accepted.{HeldFor, accept-balances}
use offline_pay.Settlement.Recorded.{recorded_payment, accept-recorded}
use offline_pay.Settlement.Sound.{Acceptable, submit_one-Acceptable, submit_one-rejected}
use offline_pay.Settlement.Waterfall.{shares}
use offline_pay.Settlement.Shared.{
  FinalizedAs, pending_of, finalize_for_payer-shares, finalize_for_payer-total,
}
use offline_pay.Settlement.Totals.{count_rejected, settled_total, submit_claim-totals}
use offline_pay.Settlement.Ends.{AdvancedRows}
use offline_pay.Settlement.Cleared.{finalize_for_payer-clears}
use offline_pay.Store.Payments.{is_pending_of}
use offline_pay.Base.{select}
use offline_pay.Settlement.Ended.{finalize_for_payer-AdvancedRows}
use offline_pay.Settlement.Shared.{SettledInAll}
use offline_pay.Base.Int.{wrap_int64}
use offline_pay.Tests.Fixture.{settlement, world, claim}

abbrev claimed : World
claimed = world_of (submit_one settlement 60 20 claim 500 world)

submit_one-run : submit_one settlement 60 20 claim 500 world ≡ ok (accepted 1000 claim) claimed
unfolding settlement_calls
submit_one-run = refl

submit_one-Runs : Runs (submit_one settlement 60 20 claim 500) world (accepted 1000 claim) claimed
submit_one-Runs = record { run = submit_one-run }

abbrev accepted_world : World
accepted_world = world_of (accept settlement 60 20 claim 500 world)

accept-run : accept settlement 60 20 claim 500 world ≡ ok (accepted 1000 claim) accepted_world
unfolding settlement_calls
accept-run = refl

accept-Runs : Runs (accept settlement 60 20 claim 500) world (accepted 1000 claim) accepted_world
accept-Runs = record { run = accept-run }

-- The payer cannot be the payee.
abbrev self_payment : ClaimItem
self_payment = record claim { payment = record claim.payment { payee_id = 10 } }

rejection_status : (rejection self_payment.payment self_pay).status ≡ rejected
unfolding rejection
rejection_status = refl

self_payment-run :
    submit_one settlement 60 10 self_payment 500 world
    ≡ ok (rejection self_payment.payment self_pay) world
unfolding settlement_calls
self_payment-run = refl

submit_one-rejected_example : world.db ≡ world.db
submit_one-rejected_example =
    submit_one-rejected settlement 60 10 self_payment 500 world world
      (rejection self_payment.payment self_pay) rejection_status (record { run = self_payment-run })

submit_claim-Conserved_example :
    Conserved world.db (world_of (submit_claim settlement 20 (claim ∷ claim ∷ []) 44 world)).db
submit_claim-Conserved_example = submit_claim-Conserved settlement 20 (claim ∷ claim ∷ []) 44 world

finalize_for_payer-Conserved_example :
    Conserved claimed.db (world_of (finalize_for_payer settlement 10 claimed)).db
finalize_for_payer-Conserved_example = finalize_for_payer-Conserved settlement 10 claimed

submit_one-Acceptable_example :
    (claimed.db ≡ world.db)
    ⊎ (Acceptable settlement 20 claim 500 world.db
        × Runs (accept settlement 60 20 claim 500) world (accepted 1000 claim) claimed)
submit_one-Acceptable_example =
    submit_one-Acceptable settlement 60 20 claim 500 world claimed (accepted 1000 claim)
      submit_one-Runs

accept-balances_example :
    (p : Account) × (account_of 20 receiving_pending world.db ≡ some p)
    × HeldFor 9 p.id (pos 40) world.db.accounts accepted_world.db.accounts
accept-balances_example =
    accept-balances settlement 60 20 claim 500 world accepted_world (accepted 1000 claim)
      accept-Runs

accept-recorded_example :
    (payment : Ident) × (accepted 1000 claim ≡ accepted payment claim)
    × (payment_by_sequence 10 (pos 1) accepted_world.db
        ≡ some (recorded_payment payment 20 claim 60 500))
    × (pos 0 <ℤ pos 40)
accept-recorded_example =
    accept-recorded settlement 60 20 claim 500 world accepted_world (accepted 1000 claim)
      accept-Runs

-- The payer's one pending payment, of 40 out of 100.
abbrev results : List SettlementResult
results =
    record {
      transaction_id = 1000;
      sequence_number = pos 1;
      submitted_amount = pos 40;
      settled_amount = pos 40;
      status = settled;
      reason = none;
      receiver_user_id = 20;
    }
    ∷ []

abbrev finalized : World
finalized = world_of (finalize_for_payer settlement 10 claimed)

finalize-run : finalize_for_payer settlement 10 claimed ≡ ok results finalized
unfolding settlement_calls
finalize-run = refl

finalize_for_payer-shares_example : FinalizedAs claimed.db (pending_of 10 claimed.db) results
unfolding settlement_calls
finalize_for_payer-shares_example =
    finalize_for_payer-shares settlement 10 claimed finalized results (omega arith, tt)
      (omega arith, tt) (record { run = finalize-run })

finalize_for_payer-total_example : SettledInAll claimed.db (pending_of 10 claimed.db) results
unfolding settlement_calls
finalize_for_payer-total_example =
    finalize_for_payer-total settlement 10 claimed finalized results (omega arith, tt)
      (omega arith, tt) (record { run = finalize-run })

shares_run : shares (pos 100) (pos 0) (pos 70 ∷ pos 70 ∷ pos 5 ∷ []) ≡ pos 70 ∷ pos 30 ∷ pos 0 ∷ []
unfolding shares ◌+ℤ◌ ◌-ℤ◌
shares_run = refl

finalize_for_payer-AdvancedRows_example :
    AdvancedRows
      (pending_of 10 claimed.db)
      claimed.db.payments
      (world_of (finalize_for_payer settlement 10 claimed)).db.payments
finalize_for_payer-AdvancedRows_example = finalize_for_payer-AdvancedRows settlement 10 claimed

-- A batch that names the payment twice: the second is answered from the first.
abbrev submitted_batch : SettlementBatch
submitted_batch = record {
  id = 1000;
  receiver_id = 20;
  total_submitted = 2;
  total_rejected = 0;
  total_amount = pos 0;
  status = completed;
  submitted_at = 500;
  processed_at = some 500;
}

abbrev claimed_twice : World
claimed_twice = world_of (submit_claim settlement 20 (claim ∷ claim ∷ []) 44 world)

abbrev twice : List SettlementResult
twice = accepted 1001 claim ∷ accepted 1001 claim ∷ []

submit_claim-run :
    submit_claim settlement 20 (claim ∷ claim ∷ []) 44 world
    ≡ ok (submitted_batch, twice) claimed_twice
unfolding settlement_calls wrap_int64
submit_claim-run = refl

submit_claim-totals_example :
    (length twice ≡ length (claim ∷ claim ∷ []))
    × (submitted_batch.total_submitted ≡ length (claim ∷ claim ∷ []))
    × (submitted_batch.total_rejected ≡ count_rejected twice)
    × (submitted_batch.total_amount ≡ wrap_int64 (settled_total twice))
    × (submitted_batch.receiver_id ≡ 20)
submit_claim-totals_example =
    submit_claim-totals settlement 20 (claim ∷ claim ∷ []) 44 world claimed_twice submitted_batch
      twice (record { run = submit_claim-run })

finalize_for_payer-clears_example : select (is_pending_of 10) finalized.db.payments ≡ []
finalize_for_payer-clears_example =
    finalize_for_payer-clears 10 settlement claimed finalized results
      (record { run = finalize-run })
