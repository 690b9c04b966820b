-- ===== src/Settlement/Finalized.antt =====
-- Finalization conserves money and keeps every account level with its ledger.
use offline_pay.Base.{◌≡◌, Bool, true, false, List, [], ◌∷◌}
use offline_pay.Base.Int.{ℤ, pos, ◌+ℤ◌, int_laws, parts_of_eq}
use offline_pay.Domain.Tokens.{Ident, Time}
use offline_pay.Store.Rows.{Payment}
use offline_pay.Store.Monad.{World, world_of}
use offline_pay.Store.Gauge.{Gauge, Level, Shifts, Steady}
use offline_pay.Store.Gauge.Rules.{
  Shifts-bind, Shifts-skip, Shifts-cast, Shifts-pure, Shifts-when, Shifts-when-true,
  Shifts-when-false, Shifts-emit, Shifts-now,
}
use offline_pay.Store.Gauge.Writes.{
  minus, Shifts-post_ledger, Shifts-debit, Shifts-credit, Steady-tx,
}
use offline_pay.Store.Gauge.Tables.{
  Shifts-get_account_id, Shifts-anchor, Shifts-update_payment_status, Shifts-finalize_paired,
  Shifts-list_pending, Shifts-get_ceiling, Shifts-update_ceiling_status,
}
use offline_pay.Store.Gauge.Conserved.{Conserved, conserves}
use offline_pay.Settlement.Types.{Service}
use offline_pay.Settlement.Finalize.{
  Allotment, Parties, allot, move_settled, reverse_unsettled, move_money, settle_one, settle_all,
  finalize_pending, finalize_sorted, finalize_body, finalize_for_payer,
}

-- The legs and the balance moves of the two halves cancel.
module _ (ll ls lp lm wl ws wp wm : ℤ) (lien : wl +ℤ ls ≡ ws +ℤ ll)
    (paid : wp +ℤ lm ≡ wm +ℤ lp) where
  taken_zero :
      ll
        +ℤ (minus ls +ℤ (lp +ℤ (minus lm +ℤ pos 0)))
        +ℤ (minus wl +ℤ (ws +ℤ (minus wp +ℤ wm)) +ℤ pos 0)
      ≡ pos 0
  taken_zero = omega (int_laws, parts_of_eq _ _ lien, parts_of_eq _ _ paid)

  both_zero :
      (kp ks vp vs : ℤ)
      → vp +ℤ ks ≡ vs +ℤ kp
      → ll
          +ℤ (minus ls +ℤ (lp +ℤ (minus lm +ℤ (kp +ℤ (minus ks +ℤ pos 0)))))
          +ℤ (minus wl +ℤ (ws +ℤ (minus wp +ℤ wm)) +ℤ (minus vp +ℤ vs))
        ≡ pos 0
  both_zero kp ks vp vs back =
      omega (int_laws, parts_of_eq _ _ lien, parts_of_eq _ _ paid, parts_of_eq _ _ back)

reversed_zero :
    (kp ks vp vs : ℤ)
    → vp +ℤ ks ≡ vs +ℤ kp
    → kp +ℤ (minus ks +ℤ pos 0) +ℤ (pos 0 +ℤ (minus vp +ℤ vs)) ≡ pos 0
reversed_zero kp ks vp vs back = omega (int_laws, parts_of_eq _ _ back)

module _ (g : Gauge) where
  -- What the balance moves of the two halves come to.
  abbrev taken : Parties → ℤ → ℤ
  taken a x =
      minus (g.weight a.lien x)
      +ℤ (g.weight a.suspense x +ℤ (minus (g.weight a.pending x) +ℤ g.weight a.main x))

  abbrev reversed_by : Parties → ℤ → ℤ
  reversed_by a x = minus (g.weight a.pending x) +ℤ g.weight a.suspense x

  Shifts-move_settled : (a : Parties) (x : ℤ) → Shifts g (taken a x) (move_settled a x)
  unfolding move_settled
  Shifts-move_settled a x = Shifts-bind g (Shifts-debit g _ _) λ _.
      Shifts-bind g (Shifts-credit g _ _)
        λ _. Shifts-bind g (Shifts-debit g _ _) λ _. Shifts-credit g _ _

  Shifts-reverse : (a : Parties) (x : ℤ) → Shifts g (reversed_by a x) (reverse_unsettled a x)
  unfolding reverse_unsettled
  Shifts-reverse a x = Shifts-bind g (Shifts-debit g _ _) λ _. Shifts-credit g _ _

  Shifts-move_money :
      (lv : Level g) (txn : Ident) (a : Parties) (take : Bool) (x : ℤ) (back : Bool) (y : ℤ)
      → Shifts g (pos 0) (move_money txn a take x back y)
  unfolding move_money
  Shifts-move_money lv txn a true x true y = Shifts-when-true g (
      Shifts-cast g (pos 0)
        (both_zero _ _ _ _ _ _ _ _ (lv.level txn a.lien a.suspense x)
          (lv.level txn a.pending a.main x) _ _ _ _ (lv.level txn a.pending a.suspense y))
        (Shifts-bind g (Shifts-post_ledger g _ _) λ _.
          Shifts-bind g (Shifts-when-true g (Shifts-move_settled a x))
            λ _. Shifts-when-true g (Shifts-reverse a y)))
  Shifts-move_money lv txn a true x false y = Shifts-when-true g (
      Shifts-cast g (pos 0)
        (taken_zero _ _ _ _ _ _ _ _ (lv.level txn a.lien a.suspense x)
          (lv.level txn a.pending a.main x))
        (Shifts-bind g (Shifts-post_ledger g _ _) λ _.
          Shifts-bind g (Shifts-when-true g (Shifts-move_settled a x)) λ _. Shifts-when-false g _))
  Shifts-move_money lv txn a false x true y = Shifts-when-true g (
      Shifts-cast g (pos 0) (reversed_zero _ _ _ _ (lv.level txn a.pending a.suspense y)) (
        Shifts-bind g (Shifts-post_ledger g _ _)
          λ _. Shifts-bind g (Shifts-when-false g _) λ _. Shifts-when-true g (Shifts-reverse a y)))
  Shifts-move_money lv txn a false x false y = Shifts-when-false g _

module _ (g : Gauge) (lv : Level g) (s : Service) where
  Shifts-settle_one :
      (payer lien ceiling : Ident) (t : Time) (txn : Payment) (a : Allotment)
      → Shifts g (pos 0) (settle_one s payer lien ceiling t txn a)
  unfolding settle_one
  Shifts-settle_one payer lien ceiling t txn a =
      Shifts-skip g (Shifts-when g _ _ (Shifts-emit g _)) λ _.
        Shifts-skip g (Shifts-get_account_id g _ _) λ _.
          Shifts-skip g (Shifts-get_account_id g _ _) λ _. Shifts-skip g (Shifts-anchor g _) λ _.
            Shifts-skip g (Shifts-move_money g lv _ _ _ _ _ _) λ _.
              Shifts-skip g (Shifts-update_payment_status g _ _) λ _.
                Shifts-skip g (Shifts-when g _ _ (Shifts-emit g _))
                  λ _. Shifts-skip g (Shifts-finalize_paired g _ _ _ _) λ _. Shifts-pure g _

  Shifts-settle_all :
      (payer lien ceiling : Ident) (t : Time) (remaining : ℤ) (txns : List Payment)
      → Shifts g (pos 0) (settle_all s payer lien ceiling t remaining txns)
  unfolding settle_all
  Shifts-settle_all payer lien ceiling t remaining [] = Shifts-pure g _
  Shifts-settle_all payer lien ceiling t remaining (txn ∷ txns) =
      Shifts-skip g (Shifts-settle_one payer lien ceiling t txn _) λ _.
        Shifts-skip g
          (Shifts-settle_all payer lien ceiling t (allot txn.amount remaining).remaining txns)
          λ _. Shifts-pure g _

  Shifts-finalize_sorted :
      (payer : Ident) (txns : List Payment) → Shifts g (pos 0) (finalize_sorted s payer txns)
  unfolding finalize_sorted finalize_pending
  Shifts-finalize_sorted payer [] = Shifts-pure g _
  Shifts-finalize_sorted payer (first ∷ rest) = Shifts-skip g (Shifts-get_account_id g _ _) λ lien.
      Shifts-skip g (Shifts-get_ceiling g _) λ ceiling. Shifts-skip g (Shifts-now g _) λ t.
        Shifts-skip g (Shifts-settle_all payer lien ceiling.id t _ _) λ _.
          Shifts-skip g (Shifts-when g _ _ (Shifts-update_ceiling_status g _ _))
            λ _. Shifts-pure g _

  pub finalize_for_payer-Steady : (payer : Ident) → Steady g (finalize_for_payer s payer)
  unfolding finalize_for_payer finalize_body
  finalize_for_payer-Steady payer =
      Steady-tx g _
        (Shifts-skip g (Shifts-list_pending g _) λ pending. Shifts-finalize_sorted payer _)

-- `FinalizeForPayer`, however it ends, leaves the money in all accounts, every account's distance from
-- its ledger and every transaction's imbalance as they were.
pub finalize_for_payer-Conserved :
    (s : Service) (payer : Ident) (w : World)
    → Conserved w.db (world_of (finalize_for_payer s payer w)).db
finalize_for_payer-Conserved s payer = conserves _ (λ g lv. finalize_for_payer-Steady g lv s payer)
