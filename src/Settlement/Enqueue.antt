-- ===== src/Settlement/Enqueue.antt =====
-- settlement/service.go: `enqueueFinalize`, `EnqueueFinalize` and `AutoSettleSweep`, with
-- pgrepo's `ListPayersWithStalePending`.
use offline_pay.Base.{
  ℕ, suc, Bool, true, false, Option, none, some, List, [], ◌∷◌, ◌&&◌, ltb, ◌==◌, if◌then◌else◌,
}
use offline_pay.Base.Int.{pos, ◌-ℤ◌}
use offline_pay.Domain.Tokens.{Ident, Time, no_id, add_time}
use offline_pay.Store.Rows.{Payment, FinalizeReason, sweep, settlement_finalize, finalize_payer}
use offline_pay.Store.Monad.{M, Done, pure, read, fail_if, new_id, now, empty_payer, ◌>>=◌, ◌>>◌}
use offline_pay.Store.Payments.{is_pending_of, insert_finalize_outbox}
use offline_pay.Settlement.Types.{Service}

unfoldable pub enqueue_finalize : Service → Ident → FinalizeReason → M Done
enqueue_finalize s payer reason = do
  fail_if (payer == no_id) empty_payer
  enqueued_at ← now s.clock
  id ← new_id s.supply
  insert_finalize_outbox (record {
    id = id;
    aggregate = settlement_finalize;
    aggregate_id = payer;
    payload = finalize_payer payer reason enqueued_at;
    dispatched_at = none;
    attempts = 0;
    next_attempt_at = none;
  })

-- One event for each payer in turn; the result is how many.
unfoldable pub enqueue_all : Service → FinalizeReason → List Ident → M ℕ
unfolding enqueue_finalize
enqueue_all s reason [] = pure 0
enqueue_all s reason (payer ∷ payers) = do
  enqueue_finalize s payer reason
  rest ← enqueue_all s reason payers
  pure (suc rest)

abbrev pub contains_id : Ident → List Ident → Bool
contains_id id [] = false
contains_id id (j ∷ js) = if j == id then true else contains_id id js

-- A set of ids, as a list that names each once.
abbrev pub insert_id : Ident → List Ident → List Ident
insert_id id ids = if contains_id id ids then ids else id ∷ ids

-- `HAVING MIN(submitted_at) < $1`: some PENDING row of the payer was submitted before.
stale : Time → Payment → Bool
stale before p = is_pending_of p.payer_id p && submitted_before p.submitted_at
  where
    submitted_before : Option Time → Bool
    submitted_before none = false
    submitted_before (some t) = ltb t before

stale_payers : Time → List Payment → List Ident
unfolding stale
stale_payers before [] = []
stale_payers before (p ∷ ps) =
    let rest = stale_payers before ps in if stale before p then insert_id p.payer_id rest else rest

unfoldable pub list_payers_with_stale_pending : Time → M (List Ident)
unfolding stale_payers
list_payers_with_stale_pending before = read λ db. stale_payers before db.payments

unfoldable pub auto_settle_sweep : Service → M ℕ
auto_settle_sweep s = do
  t ← now s.clock
  payers ← list_payers_with_stale_pending (add_time t (pos 0 -ℤ s.auto_settle_timeout))
  enqueue_all s sweep payers
