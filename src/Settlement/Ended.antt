-- ===== src/Settlement/Ended.antt =====
-- What a finalization leaves of the payments on record (settlement/service.go).
use offline_pay.Base.{
  ◌≡◌, refl, Bool, true, Option, some, List, [], ◌∷◌, All, arith, if◌then◌else◌, find, is_some,
  ◌==◌, ==_refl,
}
use offline_pay.Base.Int.{ℤ}
use offline_pay.Domain.Status.{LifecycleStatus}
use offline_pay.Domain.Tokens.{Ident, Time}
use offline_pay.Store.Rows.{Payment, TransactionRow, Reason}
use offline_pay.Store.Monad.{World, world_of, tx, read, ◌>>=◌}
use offline_pay.Store.Keeps.{
  Keeps, Keeps-bind, Keeps-pure, Keeps-one, Keeps-read, Keeps-when, Keeps-emit, Keeps-modify,
  Keeps-now, Keeps-get_ceiling,
}
use offline_pay.Store.Keeps.Writes.{
  Keeps-get_account_id, Keeps-debit, Keeps-credit, Keeps-post_ledger,
}
use offline_pay.Store.Payments.{list_pending_for_payer, sort_by_sequence}
use offline_pay.Store.Ceilings.{update_ceiling_status}
use offline_pay.Store.Transactions.{
  get_transaction_anchor_for_payment, finalize_paired_transactions, finalize_rows,
  update_transaction_status,
}
use offline_pay.Settlement.Types.{Service}
use offline_pay.Settlement.Finalize.{
  Allotment, Parties, allot, move_money, move_settled, reverse_unsettled, settle_one, settle_all,
  finalize_pending, finalize_sorted, finalize_body, finalize_for_payer,
}
use offline_pay.Settlement.Shared.{pending_of}
use offline_pay.Store.Payments.Order.{sort-All}
use offline_pay.Settlement.Ends.{
  EndsPending, allot-EndsPending, is_listed, AdvancedRows, payments_of, Advances, bind-Advances,
  kept-Advances, update-Advances, end_tx-Advances,
}

rows-Keeps :
    (st : LifecycleStatus) (x : Option ℤ) (r : Option Reason) (rows : List TransactionRow)
    → Keeps payments_of (finalize_rows st x r rows)
unfolding finalize_rows update_transaction_status
rows-Keeps st x r [] = Keeps-pure payments_of _
rows-Keeps st x r (row ∷ rows) =
    Keeps-bind payments_of (Keeps-modify payments_of _ (λ _. refl)) λ _. rows-Keeps st x r rows

pub anchor-Keeps : (id : Ident) → Keeps payments_of (get_transaction_anchor_for_payment id)
unfolding get_transaction_anchor_for_payment
anchor-Keeps id = Keeps-bind payments_of (Keeps-one payments_of _) λ t. Keeps-pure payments_of _

pub paired-Keeps :
    (group : Ident) (st : LifecycleStatus) (x : Option ℤ) (r : Option Reason)
    → Keeps payments_of (finalize_paired_transactions group st x r)
unfolding finalize_paired_transactions
paired-Keeps group st x r =
    Keeps-bind payments_of (Keeps-read payments_of _) λ rows. rows-Keeps st x r rows

pub move_money-Keeps :
    (t : Ident) (a : Parties) (take : Bool) (x : ℤ) (back : Bool) (y : ℤ)
    → Keeps payments_of (move_money t a take x back y)
unfolding move_money move_settled reverse_unsettled
move_money-Keeps t a take x back y = Keeps-when payments_of _ (
    Keeps-bind payments_of (Keeps-post_ledger payments_of (λ _ _. refl) _ _) λ _.
      Keeps-bind payments_of
        (Keeps-when payments_of _ (
          Keeps-bind payments_of (Keeps-debit payments_of (λ _ _. refl) _ _) λ _.
            Keeps-bind payments_of (Keeps-credit payments_of (λ _ _. refl) _ _) λ _.
              Keeps-bind payments_of (Keeps-debit payments_of (λ _ _. refl) _ _)
                λ _. Keeps-credit payments_of (λ _ _. refl) _ _))
        λ _. Keeps-when payments_of _ (
          Keeps-bind payments_of (Keeps-debit payments_of (λ _ _. refl) _ _)
            λ _. Keeps-credit payments_of (λ _ _. refl) _ _))

module _ (listed : List Payment) where
  module _ (s : Service) (payer lien ceiling : Ident) (t : Time) where
    settle_one-Advances :
        (txn : Payment) (a : Allotment)
        → is_listed txn.id listed ≡ true
        → EndsPending a.status
        → Advances listed (settle_one s payer lien ceiling t txn a)
    unfolding settle_one
    settle_one-Advances txn a m e =
        bind-Advances listed
          (kept-Advances listed (Keeps-when payments_of _ (Keeps-emit payments_of _)))
          λ _.
            bind-Advances listed (kept-Advances listed (Keeps-get_account_id payments_of _ _)) λ _.
              bind-Advances listed (kept-Advances listed (Keeps-get_account_id payments_of _ _))
                λ _. bind-Advances listed (kept-Advances listed (anchor-Keeps _)) λ _.
                  bind-Advances listed (kept-Advances listed (move_money-Keeps _ _ _ _ _ _)) λ _.
                    bind-Advances listed (update-Advances listed txn.id _ m e) λ _.
                      kept-Advances listed (
                        Keeps-bind payments_of (Keeps-when payments_of _ (Keeps-emit payments_of _))
                          λ _.
                            Keeps-bind payments_of (paired-Keeps _ _ _ _)
                              λ _. Keeps-pure payments_of _)

    settle_all-Advances :
        (remaining : ℤ) (txns : List Payment)
        → All (λ p. is_listed p.id listed ≡ true) txns
        → Advances listed (settle_all s payer lien ceiling t remaining txns)
    unfolding settle_all
    settle_all-Advances remaining [] m = kept-Advances listed (Keeps-pure payments_of _)
    settle_all-Advances remaining (txn ∷ txns) m =
        bind-Advances listed (settle_one-Advances txn _ m.0 (allot-EndsPending _ _)) λ _.
          bind-Advances listed (settle_all-Advances (allot txn.amount remaining).remaining txns m.1)
            λ _. kept-Advances listed (Keeps-pure payments_of _)

  finalize_sorted-Advances :
      (s : Service) (payer : Ident) (txns : List Payment)
      → All (λ p. is_listed p.id listed ≡ true) txns
      → Advances listed (finalize_sorted s payer txns)
  unfolding finalize_sorted finalize_pending update_ceiling_status
  finalize_sorted-Advances s payer [] m = kept-Advances listed (Keeps-pure payments_of _)
  finalize_sorted-Advances s payer (first ∷ rest) m =
      bind-Advances listed (kept-Advances listed (Keeps-get_account_id payments_of _ _)) λ lien.
        bind-Advances listed (kept-Advances listed (Keeps-get_ceiling payments_of _)) λ c.
          bind-Advances listed (kept-Advances listed (Keeps-now payments_of _)) λ t.
            bind-Advances listed (settle_all-Advances s payer lien c.id t _ (first ∷ rest) m) λ _.
              kept-Advances listed (
                Keeps-bind payments_of
                  (Keeps-when payments_of _ (Keeps-modify payments_of _ (λ _. refl)))
                  λ _. Keeps-pure payments_of _)

each_listed :
    (ps more : List Payment)
    → ((id : Ident) → is_listed id ps ≡ true → is_listed id more ≡ true)
    → All (λ p. is_listed p.id more ≡ true) ps
each_listed [] more h = tt
each_listed (p ∷ ps) more h =
    (h p.id (rw (==_refl p.id) refl), each_listed ps more λ id k. h id (either p.id id ps k))
  where
    either :
        (i id : Ident) (ps : List Payment)
        → is_listed id ps ≡ true
        → is_some (if i == id then some p else find (λ q. q.id == id) ps) ≡ true
    either i id ps k = ground arith

-- `FinalizeForPayer`, however it ends, leaves every payment on record as it was, but for those with the id
-- of a pending payment of the payer; such a row keeps its id and either stands or has a status to which
-- `ValidTransitions` leads from PENDING and which `IsTerminal` calls terminal. No row is added or lost.
pub finalize_for_payer-AdvancedRows :
    (s : Service) (payer : Ident) (w : World)
    → AdvancedRows
        (pending_of payer w.db)
        w.db.payments
        (world_of (finalize_for_payer s payer w)).db.payments
unfolding finalize_for_payer tx finalize_body list_pending_for_payer ◌>>=◌ read
finalize_for_payer-AdvancedRows s payer w =
    let listed = pending_of payer w.db in
    let known =
      sort-All (λ p. is_listed p.id listed ≡ true) listed (each_listed listed listed (λ id h. h)) in
    end_tx-Advances listed w (finalize_sorted s payer (sort_by_sequence listed) w)
      ((finalize_sorted-Advances listed s payer (sort_by_sequence listed) known).advances w)
