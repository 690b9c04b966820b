-- ===== src/Tests/Nightly.antt =====
-- The nightly reconciliation before and after an online transfer, in a bank whose ledger agrees.
use offline_pay.Base.{◌≡◌, ◌+◌, refl, some, [], ◌∷◌, ◌↔◌, false, arith}
use offline_pay.Base.Int.{pos, negsuc, wrap_int64}
use offline_pay.Domain.Reconciliation.{ReconciliationRecord, ReconciliationType, clean}
use offline_pay.Domain.Status.{debit, credit}
use offline_pay.Store.Rows.{Account, TransferPayload, TransferStatus, main, suspense}
use offline_pay.Store.Monad.{World, Outcome, ok, err, world_of}
use offline_pay.Store.Accounts.{account_of}
use offline_pay.Store.Calls.{store_calls}
use offline_pay.Transfer.Accept.{new_transfer, payload_of}
use offline_pay.Transfer.Process.{apply_transfer}
use offline_pay.Transfer.Calls.{transfer_calls}
use offline_pay.Reconcile.Nightly.{
  Service, nightly_ledger_reconcile, check_accounts, check_ceilings, side_total, report,
  settled_total,
}
use offline_pay.Reconcile.Clean.{InBalance, nightly-clean, with_run}
use offline_pay.Reconcile.Drift.{transfer-unbalances}
use offline_pay.Tests.Fixture.{transfers, transfer_input, world}

abbrev nightly : Service
nightly = record { supply = λ n. 5000 + n; clock = λ n. 9000 }

abbrev payer_main : Account
payer_main = record { id = 1; user_id = 10; kind = main; balance = pos 400 }

abbrev payee_main : Account
payee_main = record { id = 3; user_id = 20; kind = main; balance = pos 0 }

abbrev audited : World
audited = record world {
  db = record world.db {
    accounts =
        payer_main
        ∷ payee_main
        ∷ (record { id = 9; user_id = 99; kind = suspense; balance = negsuc 399 })
        ∷ [];
    ledger =
        (record { txn_id = 7; account_id = 1; direction = credit; amount = pos 400 })
        ∷ (record { txn_id = 7; account_id = 9; direction = debit; amount = pos 400 })
        ∷ [];
  };
}

abbrev no_record : ReconciliationRecord
no_record = record {
  id = 0;
  type_of_run = ReconciliationType.ledger;
  run_at = 0;
  status = clean;
  discrepancies = [];
}

abbrev record_of : Outcome ReconciliationRecord → ReconciliationRecord
record_of (ok r _) = r
record_of (err _ _) = no_record

abbrev night : Outcome ReconciliationRecord
night = nightly_ledger_reconcile nightly audited

night-run : nightly_ledger_reconcile nightly audited ≡ ok (record_of night) (world_of night)
unfolding nightly_ledger_reconcile check_accounts check_ceilings report settled_total wrap_int64
    side_total store_calls
night-run = refl

nightly-clean_example :
    (((record_of night).status ≡ clean) ↔ InBalance audited.db)
    × ((world_of night).db ≡ with_run (record_of night) audited.db)
nightly-clean_example =
    nightly-clean nightly audited (world_of night) (record_of night) (record { run = night-run })

night-is_clean : (record_of night).status ≡ clean
unfolding nightly_ledger_reconcile check_accounts check_ceilings report settled_total wrap_int64
    side_total store_calls
night-is_clean = refl

abbrev sent : TransferPayload
sent = payload_of (new_transfer 3000 0 transfer_input 20 false)

abbrev after_transfer : World
after_transfer = world_of (apply_transfer transfers 3004 sent audited)

transfer-run : apply_transfer transfers 3004 sent audited ≡ ok TransferStatus.settled after_transfer
unfolding transfer_calls
transfer-run = refl

abbrev next_night : Outcome ReconciliationRecord
next_night = nightly_ledger_reconcile nightly after_transfer

next-run :
    nightly_ledger_reconcile nightly after_transfer
    ≡ ok (record_of next_night) (world_of next_night)
unfolding nightly_ledger_reconcile check_accounts check_ceilings report settled_total wrap_int64
    side_total transfer_calls
next-run = refl

found_main : account_of 10 main audited.db ≡ some payer_main
unfolding store_calls
found_main = refl

found_payee : account_of 20 main audited.db ≡ some payee_main
unfolding store_calls
found_payee = refl

transfer-unbalances_example : ¬ ((record_of next_night).status ≡ clean)
transfer-unbalances_example =
    transfer-unbalances transfers nightly 3004 sent payer_main payee_main audited after_transfer
      (world_of night) (world_of next_night) (record_of night) (record_of next_night) found_main
      found_payee refl (omega arith) (record { run = night-run }) night-is_clean
      (record { run = transfer-run }) (record { run = next-run })
