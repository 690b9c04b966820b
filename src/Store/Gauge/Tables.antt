-- ===== src/Store/Gauge/Tables.antt =====
-- The calls that touch neither balances nor the ledger leave every gauge alone.
use offline_pay.Base.{ℕ, refl, Option, List, [], ◌∷◌}
use offline_pay.Base.Int.{ℤ, pos}
use offline_pay.Domain.Status.{CeilingStatus, LifecycleStatus}
use offline_pay.Domain.Tokens.{Ident, CeilingToken}
use offline_pay.Store.Rows.{AccountKind, Payment, TransactionRow, Reason}
use offline_pay.Store.Accounts.{get_account_id, get_account_balance}
use offline_pay.Store.Ceilings.{
  get_ceiling_token, issue_ceiling_token, create_ceiling_token, update_ceiling_status,
  count_in_flight_payments, sum_settled_for_ceiling, get_active_bank_signing_key,
  get_user_payer_pubkey,
}
use offline_pay.Store.Payments.{
  create_payment, list_pending_for_payer, StatusUpdate, update_payment_status,
}
use offline_pay.Store.Transactions.{
  record_transaction, get_transaction_anchor_for_payment, update_transaction_status, finalize_rows,
  finalize_paired_transactions,
}
use offline_pay.Store.Gauge.{Gauge, Shifts}
use offline_pay.Store.Gauge.Rules.{
  Shifts-branch, Shifts-new_id, Shifts-skip, Shifts-pure, Shifts-read, Shifts-one, Shifts-fail_if,
  Shifts-modify, Shifts-looking,
}

module _ (g : Gauge) where
  pub Shifts-get_account_id : (u : Ident) (k : AccountKind) → Shifts g (pos 0) (get_account_id u k)
  unfolding get_account_id
  Shifts-get_account_id u k = Shifts-skip g (Shifts-one g _) λ _. Shifts-pure g _

  pub Shifts-get_account_balance :
      (u : Ident) (k : AccountKind) → Shifts g (pos 0) (get_account_balance u k)
  unfolding get_account_balance
  Shifts-get_account_balance u k = Shifts-skip g (Shifts-one g _) λ _. Shifts-pure g _

  Shifts-create_ceiling_token : (c : CeilingToken) → Shifts g (pos 0) (create_ceiling_token c)
  unfolding create_ceiling_token
  Shifts-create_ceiling_token c = Shifts-looking g λ db. Shifts-skip g (Shifts-fail_if g _ _) λ _.
      Shifts-skip g (Shifts-fail_if g _ _) λ _.
        Shifts-skip g (Shifts-fail_if g _ _)
          λ _. Shifts-skip g (Shifts-modify g _ (λ _. refl)) λ _. Shifts-pure g _

  pub Shifts-issue_ceiling_token :
      (supply : ℕ → Ident) (c : CeilingToken) → Shifts g (pos 0) (issue_ceiling_token supply c)
  unfolding issue_ceiling_token
  Shifts-issue_ceiling_token supply c =
      Shifts-skip g (Shifts-branch g _ (Shifts-new_id g _) (Shifts-pure g _))
        λ id. Shifts-create_ceiling_token (record c { id = id })

  pub Shifts-update_ceiling_status :
      (id : Ident) (s : CeilingStatus) → Shifts g (pos 0) (update_ceiling_status id s)
  unfolding update_ceiling_status
  Shifts-update_ceiling_status id s = Shifts-modify g _ (λ _. refl)

  pub Shifts-create_payment : (p : Payment) → Shifts g (pos 0) (create_payment p)
  unfolding create_payment
  Shifts-create_payment p = Shifts-looking g λ db. Shifts-skip g (Shifts-fail_if g _ _) λ _.
      Shifts-skip g (Shifts-fail_if g _ _) λ _.
        Shifts-skip g (Shifts-fail_if g _ _)
          λ _. Shifts-skip g (Shifts-modify g _ (λ _. refl)) λ _. Shifts-pure g _

  pub Shifts-update_payment_status :
      (id : Ident) (u : StatusUpdate) → Shifts g (pos 0) (update_payment_status id u)
  unfolding update_payment_status
  Shifts-update_payment_status id u =
      Shifts-skip g (Shifts-one g _)
        λ _. Shifts-skip g (Shifts-fail_if g _ _) λ _. Shifts-modify g _ (λ _. refl)

  pub Shifts-record_transaction : (t : TransactionRow) → Shifts g (pos 0) (record_transaction t)
  unfolding record_transaction
  Shifts-record_transaction t = Shifts-looking g λ db.
      Shifts-skip g (Shifts-fail_if g _ _)
        λ _. Shifts-skip g (Shifts-fail_if g _ _) λ _. Shifts-modify g _ (λ _. refl)

  Shifts-finalize_rows :
      (s : LifecycleStatus) (x : Option ℤ) (r : Option Reason) (rows : List TransactionRow)
      → Shifts g (pos 0) (finalize_rows s x r rows)
  unfolding finalize_rows update_transaction_status
  Shifts-finalize_rows s x r [] = Shifts-pure g tt
  Shifts-finalize_rows s x r (row ∷ rows) =
      Shifts-skip g (Shifts-modify g _ (λ _. refl)) λ _. Shifts-finalize_rows s x r rows

  pub Shifts-finalize_paired :
      (group : Ident) (s : LifecycleStatus) (x : Option ℤ) (r : Option Reason)
      → Shifts g (pos 0) (finalize_paired_transactions group s x r)
  unfolding finalize_paired_transactions
  Shifts-finalize_paired group s x r =
      Shifts-skip g (Shifts-read g _) λ rows. Shifts-finalize_rows s x r rows

  pub Shifts-anchor : (p : Ident) → Shifts g (pos 0) (get_transaction_anchor_for_payment p)
  unfolding get_transaction_anchor_for_payment
  Shifts-anchor p = Shifts-skip g (Shifts-one g _) λ _. Shifts-pure g _

  -- The single queries.
  pub Shifts-get_ceiling : (id : Ident) → Shifts g (pos 0) (get_ceiling_token id)
  unfolding get_ceiling_token
  Shifts-get_ceiling id = Shifts-one g _

  pub Shifts-count : (c : Ident) → Shifts g (pos 0) (count_in_flight_payments c)
  unfolding count_in_flight_payments
  Shifts-count c = Shifts-read g _

  pub Shifts-sum_settled : (c : Ident) → Shifts g (pos 0) (sum_settled_for_ceiling c)
  unfolding sum_settled_for_ceiling
  Shifts-sum_settled c =
      Shifts-skip g (Shifts-read g _) λ _. Shifts-skip g (Shifts-fail_if g _ _) λ _. Shifts-pure g _

  pub Shifts-active_bank_key : Shifts g (pos 0) get_active_bank_signing_key
  unfolding get_active_bank_signing_key
  Shifts-active_bank_key = Shifts-one g _

  pub Shifts-payer_pubkey : (u : Ident) → Shifts g (pos 0) (get_user_payer_pubkey u)
  unfolding get_user_payer_pubkey
  Shifts-payer_pubkey u = Shifts-read g _

  pub Shifts-list_pending : (u : Ident) → Shifts g (pos 0) (list_pending_for_payer u)
  unfolding list_pending_for_payer
  Shifts-list_pending u = Shifts-read g _
