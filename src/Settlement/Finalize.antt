-- ===== src/Settlement/Finalize.antt =====
-- settlement/service.go: `FinalizeForPayer`. Each PENDING payment of the payer, in sequence order,
-- is settled out of what is left of the ceiling.
use offline_pay.Base.{Bool, true, false, Option, none, some, List, [], ◌∷◌, ◌++◌, if◌then◌else◌}
use offline_pay.Base.Int.{ℤ, pos, ◌-ℤ◌, leb_ℤ, ltb_ℤ, eqb_ℤ}
use offline_pay.Domain.Status.{
  PaymentStatus, settled, partially_settled, exhausted, LifecycleStatus, Direction, debit, credit,
}
use offline_pay.Domain.Tokens.{Ident, Time}
use offline_pay.Store.Rows.{
  Reason, ceiling_exhausted, ceiling_short_by, lien_holding, receiving_pending, main, Payment,
}
use offline_pay.Store.Monad.{
  M, Done, pure, when, emit, fraud, ceiling_exhaustion, observe_settled, now, tx, ◌>>=◌, ◌>>◌,
}
use offline_pay.Store.Accounts.{
  get_account_id, LedgerLeg, post_ledger, debit_account, credit_account,
}
use offline_pay.Store.Ceilings.{get_ceiling_token, update_ceiling_status}
use offline_pay.Store.Payments.{
  list_pending_for_payer, sort_by_sequence, StatusUpdate, update_payment_status,
}
use offline_pay.Store.Transactions.{
  get_transaction_anchor_for_payment, finalize_paired_transactions,
}
use offline_pay.Settlement.Types.{Service, SettlementResult}

-- What one payment gets, and what it leaves.
pub record Allotment : Type 0 where
  pub settled_amount : ℤ
  pub remaining : ℤ
  pub status : PaymentStatus
  pub reason : Option Reason

-- `switch { case remaining <= 0: ... case txn.Amount <= remaining: ... default: ... }`
unfoldable pub allot : ℤ → ℤ → Allotment
allot amount remaining =
    if leb_ℤ remaining (pos 0)
    then record {
      settled_amount = pos 0;
      remaining = remaining;
      status = partially_settled;
      reason = some ceiling_exhausted;
    }
    else if leb_ℤ amount remaining
    then record {
      settled_amount = amount;
      remaining = remaining -ℤ amount;
      status = settled;
      reason = none;
    }
    else record {
      settled_amount = remaining;
      remaining = pos 0;
      status = partially_settled;
      reason = some (ceiling_short_by (amount -ℤ remaining));
    }

-- The accounts of one settlement.
pub record Parties : Type 0 where
  pub lien : Ident
  pub suspense : Ident
  pub pending : Ident
  pub main : Ident

abbrev leg : Ident → Direction → ℤ → LedgerLeg
leg account direction amount = record {
  account_id = account;
  direction = direction;
  amount = amount;
}

unfoldable pub settled_legs : Parties → ℤ → List LedgerLeg
settled_legs a x =
    leg a.lien debit x ∷ leg a.suspense credit x ∷ leg a.pending debit x ∷ leg a.main credit x ∷ []

unfoldable pub unsettled_legs : Parties → ℤ → List LedgerLeg
unsettled_legs a x = leg a.pending debit x ∷ leg a.suspense credit x ∷ []

unfoldable pub move_settled : Parties → ℤ → M Done
move_settled a x = do
  debit_account a.lien x
  credit_account a.suspense x
  debit_account a.pending x
  credit_account a.main x

unfoldable pub reverse_unsettled : Parties → ℤ → M Done
reverse_unsettled a x = do debit_account a.pending x; credit_account a.suspense x

abbrev legs_if : Bool → List LedgerLeg → List LedgerLeg
legs_if true legs = legs
legs_if false legs = []

abbrev has_legs : List LedgerLeg → Bool
has_legs [] = false
has_legs (_ ∷ _) = true

-- The ledger legs, and then the balances in the same order. `take` and `back` are `settled > 0` and
-- `unsettled > 0`.
unfoldable pub move_money : Ident → Parties → Bool → ℤ → Bool → ℤ → M Done
unfolding settled_legs unsettled_legs move_settled reverse_unsettled
move_money txn a take x back y =
    let legs = legs_if take (settled_legs a x) ++ legs_if back (unsettled_legs a y) in
    when (has_legs legs)
      (do post_ledger txn legs; when take (move_settled a x); when back (reverse_unsettled a y))

abbrev pub is_positive : ℤ → Bool
is_positive x = ltb_ℤ (pos 0) x

abbrev pub has_reason : Option Reason → Bool
has_reason none = false
has_reason (some _) = true

abbrev settle_update : Payment → Allotment → Time → StatusUpdate
settle_update txn a now = record {
  status = a.status;
  settled_amount = a.settled_amount;
  rejection_reason = a.reason;
  settlement_batch_id = txn.settlement_batch_id;
  submitted_at = txn.submitted_at;
  settled_at = some now;
}

abbrev pub settled_result : Payment → Allotment → SettlementResult
settled_result txn a = record {
  transaction_id = txn.id;
  sequence_number = txn.sequence_number;
  submitted_amount = txn.amount;
  settled_amount = a.settled_amount;
  status = a.status;
  reason = a.reason;
  receiver_user_id = txn.payee_id;
}

-- One round of the loop, from the allotment on.
unfoldable pub settle_one :
    Service → Ident → Ident → Ident → Time → Payment → Allotment → M SettlementResult
unfolding move_money
settle_one s payer lien ceiling now txn a = do
  when (has_reason a.reason) (emit (fraud ceiling_exhaustion payer ceiling))
  pending ← get_account_id txn.payee_id receiving_pending
  main_account ← get_account_id txn.payee_id main
  anchor ← get_transaction_anchor_for_payment txn.id
  move_money anchor.id
      (record {
        lien = lien;
        suspense = s.suspense_account;
        pending = pending;
        main = main_account;
      })
      (is_positive a.settled_amount) a.settled_amount (is_positive (txn.amount -ℤ a.settled_amount))
      (txn.amount -ℤ a.settled_amount)
  update_payment_status txn.id (settle_update txn a now)
  when (is_positive a.settled_amount) (emit (observe_settled payer now))
  finalize_paired_transactions anchor.group_id LifecycleStatus.completed (some a.settled_amount)
      a.reason
  pure (settled_result txn a)

-- The loop; the result is what is left of the ceiling, and a result for each payment.
unfoldable pub settle_all :
    Service → Ident → Ident → Ident → Time → ℤ → List Payment → M (ℤ × List SettlementResult)
settle_all s payer lien ceiling now remaining [] = pure (remaining, [])
settle_all s payer lien ceiling now remaining (txn ∷ txns) = do
  result ← settle_one s payer lien ceiling now txn (allot txn.amount remaining)
  rest ← settle_all s payer lien ceiling now (allot txn.amount remaining).remaining txns
  pure (rest.0, result ∷ rest.1)

-- The rest of the transaction, once the first pending payment is known.
unfoldable pub finalize_pending :
    Service → Ident → Payment → List Payment → M (List SettlementResult)
finalize_pending s payer first pending = do
  lien ← get_account_id payer lien_holding
  ceiling ← get_ceiling_token first.ceiling_id
  time ← now s.clock
  done ← settle_all s payer lien ceiling.id time ceiling.ceiling_amount pending
  when (eqb_ℤ done.0 (pos 0)) (update_ceiling_status ceiling.id exhausted)
  pure done.1

unfoldable pub finalize_sorted : Service → Ident → List Payment → M (List SettlementResult)
finalize_sorted s payer [] = pure []
finalize_sorted s payer (first ∷ rest) = finalize_pending s payer first (first ∷ rest)

unfoldable pub finalize_body : Service → Ident → M (List SettlementResult)
finalize_body s payer = do
  pending ← list_pending_for_payer payer
  finalize_sorted s payer (sort_by_sequence pending)

unfoldable pub finalize_for_payer : Service → Ident → M (List SettlementResult)
finalize_for_payer s payer = tx (finalize_body s payer)
