-- ===== src/Store/Runs/Calls.antt =====
-- What a successful call of the repository read and wrote.
use offline_pay.Base.{◌≡◌, ap, ◌∙◌, false, some, ◌∷◌, ◌==◌, find, update_where}
use offline_pay.Base.Int.{ℤ}
use offline_pay.Domain.Tokens.{Ident, CeilingToken}
use offline_pay.Store.Rows.{Account, AccountKind, Payment}
use offline_pay.Store.Monad.{World, Done}
use offline_pay.Store.Accounts.{account_of, get_account_id, get_account_balance}
use offline_pay.Store.Ceilings.{get_ceiling_token}
use offline_pay.Store.Payments.{
  violates_check, violates_unique, create_payment, StatusUpdate, apply_update,
  update_payment_status,
}
use offline_pay.Store.Runs.{Runs, bind-ok, pure-ok, one-ok, looking-ok, fail_if-ok, modify-ok}

module _ {w w' : World} where
  pub get_account_id-ok :
      (u : Ident) (k : AccountKind) {id : Ident}
      → Runs (get_account_id u k) w id w'
      → (a : Account) × (account_of u k w.db ≡ some a) × (id ≡ a.id) × (w' ≡ w)
  unfolding get_account_id
  get_account_id-ok u k h =
      let b = bind-ok _ h in
      let row = one-ok _ b.0.runs in
      let end = pure-ok b.1 in (b.0.result, row.0, end.0, end.1 ∙ row.1)

  pub get_account_balance-ok :
      (u : Ident) (k : AccountKind) {x : ℤ}
      → Runs (get_account_balance u k) w x w'
      → (a : Account) × (account_of u k w.db ≡ some a) × (x ≡ a.balance) × (w' ≡ w)
  unfolding get_account_balance
  get_account_balance-ok u k h =
      let b = bind-ok _ h in
      let row = one-ok _ b.0.runs in
      let end = pure-ok b.1 in (b.0.result, row.0, end.0, end.1 ∙ row.1)

  pub get_ceiling_token-ok :
      (id : Ident) {c : CeilingToken}
      → Runs (get_ceiling_token id) w c w'
      → (find (λ d. d.id == id) w.db.ceilings ≡ some c) × (w' ≡ w)
  unfolding get_ceiling_token
  get_ceiling_token-ok id h = one-ok _ h

  -- A payment that went in broke no constraint.
  pub create_payment-ok :
      (p : Payment) {q : Payment}
      → Runs (create_payment p) w q w'
      → (violates_check p ≡ false)
        × (violates_unique p w.db ≡ false)
        × (w'.db ≡ record w.db { payments = p ∷ w.db.payments })
  unfolding create_payment
  create_payment-ok p h =
      let b = bind-ok _ (looking-ok _ h) in
      let checked = fail_if-ok _ b.0.runs in
      let c = bind-ok _ b.1 in
      let distinct = fail_if-ok _ c.0.runs in
      let d = bind-ok _ c.1 in
      let referred = fail_if-ok _ d.0.runs in
      let e = bind-ok _ d.1 in
      let written = modify-ok _ e.0.runs in
      let end = pure-ok e.1 in
      (
        checked.0,
        distinct.0,
        ap (λ v. v.db) end.1
            ∙ written
            ∙ ap (λ v. record v.db { payments = p ∷ v.db.payments })
                (referred.1 ∙ distinct.1 ∙ checked.1),
      )

  pub update_payment_status-ok :
      (id : Ident) (u : StatusUpdate) {z : Done}
      → Runs (update_payment_status id u) w z w'
      → w'.db.payments ≡ update_where (λ p. p.id == id) (apply_update u) w.db.payments
  unfolding update_payment_status
  update_payment_status-ok id u h =
      let b = bind-ok _ h in
      let row = one-ok _ b.0.runs in
      let c = bind-ok _ b.1 in
      let checked = fail_if-ok _ c.0.runs in
      ap (λ db. db.payments) (modify-ok _ c.1)
      ∙ ap (λ v. update_where (λ p. p.id == id) (apply_update u) v.db.payments) (checked.1 ∙ row.1)
