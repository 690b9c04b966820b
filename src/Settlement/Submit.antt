-- ===== src/Settlement/Submit.antt =====
-- settlement/service.go: `submitOne` and `SubmitClaim`.
use offline_pay.Base.{
  ℕ, suc, Bool, true, false, Option, some, List, [], ◌∷◌, ◌&&◌, not, ◌==◌, length,
}
use offline_pay.Base.Int.{wrap_int64, ℤ, pos, ◌+ℤ◌}
use offline_pay.Domain.Status.{PaymentStatus, rejected, completed}
use offline_pay.Domain.Tokens.{Ident, Time, no_id}
use offline_pay.Store.Rows.{Payment, Reason, claim_accepted}
use offline_pay.Store.Monad.{
  M, pure, read, fail_if, when, option, emit, observe_claim, new_id, now, submitter_required, ◌>>=◌,
  ◌>>◌,
}
use offline_pay.Store.Payments.{payment_by_sequence}
use offline_pay.Settlement.Types.{Service, ClaimItem, SettlementResult, SettlementBatch, rejection}
use offline_pay.Settlement.Claim.{
  check_parties, check_signatures, check_binding, check_window, check_live,
}
use offline_pay.Settlement.Accept.{accept}
use offline_pay.Settlement.Enqueue.{insert_id, enqueue_all}

-- 5) The state of a payment that was claimed before.
unfoldable pub existing_result : ClaimItem → Payment → SettlementResult
existing_result item existing = record {
  transaction_id = existing.id;
  sequence_number = item.payment.sequence_number;
  submitted_amount = item.payment.amount;
  settled_amount = existing.settled_amount;
  status = existing.status;
  reason = existing.rejection_reason;
  receiver_user_id = no_id;
}

-- Reject for a reason, or go on.
unfoldable pub unless_rejected : ClaimItem → Option Reason → M SettlementResult → M SettlementResult
unless_rejected item verdict k = option verdict k (λ reason. pure (rejection item.payment reason))

-- 4b) and 6): a new claim is checked against the live ceiling and accepted.
unfoldable pub accept_new : Service → Ident → Ident → ClaimItem → Time → M SettlementResult
unfolding unless_rejected
accept_new s batch submitter item now = do
  live ← check_live item now
  unless_rejected item live (accept s batch submitter item now)

-- 5): an earlier claim answers as it stands.
unfoldable pub dedupe_or_accept : Service → Ident → Ident → ClaimItem → Time → M SettlementResult
unfolding accept_new existing_result
dedupe_or_accept s batch submitter item now = do
  earlier ← read (payment_by_sequence item.payment.payer_id item.payment.sequence_number)
  option earlier (accept_new s batch submitter item now)
      (λ existing. pure (existing_result item existing))

-- The guards that follow the structural ones, each with the rest of the function behind it.
unfoldable pub submit_in_window : Service → Ident → Ident → ClaimItem → Time → M SettlementResult
unfolding unless_rejected dedupe_or_accept
submit_in_window s batch submitter item now = do
  window ← check_window s item now
  unless_rejected item window (dedupe_or_accept s batch submitter item now)

unfoldable pub submit_bound : Service → Ident → Ident → ClaimItem → Time → M SettlementResult
unfolding unless_rejected submit_in_window
submit_bound s batch submitter item now = do
  binding ← check_binding s item now
  unless_rejected item binding (submit_in_window s batch submitter item now)

unfoldable pub submit_signed : Service → Ident → Ident → ClaimItem → Time → M SettlementResult
unfolding unless_rejected submit_bound
submit_signed s batch submitter item now = do
  signatures ← check_signatures s item
  unless_rejected item signatures (submit_bound s batch submitter item now)

unfoldable pub submit_one : Service → Ident → Ident → ClaimItem → Time → M SettlementResult
unfolding unless_rejected submit_signed
submit_one s batch submitter item now =
    unless_rejected item (check_parties submitter item) (submit_signed s batch submitter item now)

-- What the loop of `SubmitClaim` has gathered.
pub record Progress : Type 0 where
  pub results : List SettlementResult
  pub total_rejected : ℕ
  pub total_amount : ℤ
  pub any_accepted : Bool
  pub payers : List Ident

abbrev pub none_yet : Progress
none_yet = record {
  results = [];
  total_rejected = 0;
  total_amount = pos 0;
  any_accepted = false;
  payers = [];
}

-- `switch res.Status`, on the progress of the rest of the batch.
unfoldable pub tally : ClaimItem → SettlementResult → Progress → Progress
tally item res rest = by_status res.status
  where
    gathered : Progress
    gathered = record rest { results = res ∷ rest.results }

    by_status : PaymentStatus → Progress
    by_status PaymentStatus.pending = record gathered {
      total_amount = wrap_int64 (res.settled_amount +ℤ rest.total_amount);
      any_accepted = true;
      payers = insert_id item.payment.payer_id rest.payers;
    }
    by_status rejected = record gathered { total_rejected = suc rest.total_rejected }
    by_status _ = gathered

-- The first error aborts the batch.
unfoldable pub submit_all : Service → Ident → Ident → List ClaimItem → Time → M Progress
unfolding tally
submit_all s batch submitter [] now = pure none_yet
submit_all s batch submitter (item ∷ items) now = do
  res ← submit_one s batch submitter item now
  rest ← submit_all s batch submitter items now
  pure (tally item res rest)

abbrev completed_batch : Ident → Ident → ℕ → Time → Time → Progress → SettlementBatch
completed_batch batch submitter size submitted_at processed_at done = record {
  id = batch;
  receiver_id = submitter;
  total_submitted = size;
  total_rejected = done.total_rejected;
  total_amount = done.total_amount;
  status = completed;
  submitted_at = submitted_at;
  processed_at = some processed_at;
}

-- `country` is `WithSubmitterCountry`, `no_id` where it is not given.
unfoldable pub submit_claim :
    Service → Ident → List ClaimItem → Ident → M (SettlementBatch × List SettlementResult)
unfolding submit_all
submit_claim s submitter items country = do
  fail_if (submitter == no_id) submitter_required
  submitted_at ← now s.clock
  batch ← new_id s.supply
  done ← submit_all s batch submitter items submitted_at
  when (done.any_accepted && not (country == no_id))
      (emit (observe_claim submitter country submitted_at))
  enqueue_all s claim_accepted (s.range_order done.payers)
  processed_at ← now s.clock
  pure (completed_batch batch submitter (length items) submitted_at processed_at done, done.results)
