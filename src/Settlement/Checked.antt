-- ===== src/Settlement/Checked.antt =====
-- The checks of `submitOne` (settlement/service.go) read the database, and leave it alone.
use offline_pay.Base.{Option}
use offline_pay.Domain.Tokens.{Time, BankSigningKey}
use offline_pay.Store.Rows.{Db, Reason}
use offline_pay.Store.Monad.{M}
use offline_pay.Store.Keeps.{
  Keeps, Keeps-bind, Keeps-pure, Keeps-fail, Keeps-branch, Keeps-option, Keeps-emit, Keeps-bank_key,
  Keeps-get_ceiling,
}
use offline_pay.Settlement.Types.{Service, ClaimItem, SettlementResult}
use offline_pay.Settlement.Claim.{
  card_key, check_request_signatures, check_signatures, check_binding, check_window, check_live,
}
use offline_pay.Settlement.Submit.{unless_rejected}

module _ {X : Type 0} (v : Db → X) (s : Service) where
  pub unless_rejected-Keeps :
      (item : ClaimItem) (verdict : Option Reason) {k : M SettlementResult}
      → Keeps v k
      → Keeps v (unless_rejected item verdict k)
  unfolding unless_rejected
  unless_rejected-Keeps item verdict h = Keeps-option v verdict h (λ _. Keeps-pure v _)

  pub card_key-Keeps : (key : BankSigningKey) (item : ClaimItem) → Keeps v (card_key key item)
  unfolding card_key
  card_key-Keeps key item = Keeps-branch v _ (Keeps-pure v _) (Keeps-bank_key v _)

  pub check_signatures-Keeps : (item : ClaimItem) → Keeps v (check_signatures s item)
  unfolding check_signatures check_request_signatures
  check_signatures-Keeps item = Keeps-bind v (Keeps-bank_key v _) λ key.
      Keeps-branch v _ (Keeps-bind v (Keeps-emit v _) λ _. Keeps-pure v _) (
        Keeps-branch v _ (Keeps-bind v (Keeps-emit v _) λ _. Keeps-pure v _) (
          Keeps-bind v (card_key-Keeps key item) λ _.
            Keeps-branch v _ (Keeps-pure v _) (Keeps-branch v _ (Keeps-pure v _) (Keeps-pure v _))))

  pub check_binding-Keeps : (item : ClaimItem) (t : Time) → Keeps v (check_binding s item t)
  unfolding check_binding
  check_binding-Keeps item t =
      Keeps-branch v _ (Keeps-pure v _)
        (Keeps-option v _ (Keeps-fail v _) λ _. Keeps-branch v _ (Keeps-pure v _) (Keeps-pure v _))

  pub check_window-Keeps : (item : ClaimItem) (t : Time) → Keeps v (check_window s item t)
  unfolding check_window
  check_window-Keeps item t =
      Keeps-branch v _ (Keeps-bind v (Keeps-emit v _) λ _. Keeps-pure v _)
        (Keeps-branch v _ (Keeps-pure v _) (Keeps-pure v _))

  pub check_live-Keeps : (item : ClaimItem) (t : Time) → Keeps v (check_live item t)
  unfolding check_live
  check_live-Keeps item t = Keeps-bind v (Keeps-get_ceiling v _) λ _. Keeps-pure v _
