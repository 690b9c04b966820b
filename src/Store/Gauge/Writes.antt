-- ===== src/Store/Gauge/Writes.antt =====
-- How the account updates, the ledger postings and a whole transaction move a gauge.
use offline_pay.Base.{◌≡◌, refl, ◌∙◌, inl, inr, true, List, [], ◌∷◌, Bool-cases}
use offline_pay.Base.Int.{ℤ, pos, ◌+ℤ◌, ◌-ℤ◌, leb_ℤ, int_laws}
use offline_pay.Domain.Status.{Direction, debit, credit}
use offline_pay.Domain.Tokens.{Ident}
use offline_pay.Store.Rows.{Account}
use offline_pay.Store.Monad.{
  World, Outcome, ok, err, M, world_of, end_tx, tx, commits, fail, looking, modify,
}
use offline_pay.Store.Accounts.{
  Adjusted, missing, violated, written, store_accounts, debit_account, force_debit_account,
  credit_account, LedgerLeg, entry, insert_ledger_entry, insert_legs, post_ledger,
}
use offline_pay.Store.Gauge.{Gauge, reading, ShiftsTo, Shifts, Steady}
use offline_pay.Store.Gauge.Rules.{
  Shifts-skip, Shifts-fail_if, Shifts-bind, Shifts-pure, Shifts-looking,
}

-- 0 - x
abbrev pub minus : ℤ → ℤ
minus x = pos 0 -ℤ x

sub_as_add : (a x : ℤ) → a -ℤ x ≡ a +ℤ minus x
sub_as_add a x = omega int_laws

-- What a leg, and the legs of a posting, move a gauge by.
abbrev pub leg_shift : Gauge → Ident → LedgerLeg → ℤ
leg_shift g t leg = signed leg.direction
  where
    signed : Direction → ℤ
    signed debit = g.leg_weight t leg.account_id leg.amount
    signed credit = minus (g.leg_weight t leg.account_id leg.amount)

abbrev pub legs_shift : Gauge → Ident → List LedgerLeg → ℤ
legs_shift g t [] = pos 0
legs_shift g t (leg ∷ legs) = leg_shift g t leg +ℤ legs_shift g t legs

module _ (g : Gauge) where
  ShiftsTo-store :
      (d : ℤ) (w : World) (r : Adjusted)
      → ((xs' : List Account) → r ≡ written xs' → g.value xs' w.db.ledger ≡ reading g w.db +ℤ d)
      → ShiftsTo g d w (store_accounts r w)
  unfolding fail modify
  ShiftsTo-store d w missing h = tt
  ShiftsTo-store d w violated h = tt
  ShiftsTo-store d w (written xs') h = h xs' refl

  pub Shifts-debit : (id : Ident) (x : ℤ) → Shifts g (minus (g.weight id x)) (debit_account id x)
  unfolding debit_account looking
  Shifts-debit id x = record {
    shift = λ w.
        ShiftsTo-store _ w _
          (λ xs' e. g.debited (leb_ℤ x) id x w.db.accounts xs' w.db.ledger e ∙ sub_as_add _ _);
  }

  pub Shifts-force_debit :
      (id : Ident) (x : ℤ) → Shifts g (minus (g.weight id x)) (force_debit_account id x)
  unfolding force_debit_account looking
  Shifts-force_debit id x = record {
    shift = λ w.
        ShiftsTo-store _ w _
          (λ xs' e. g.debited (λ b. true) id x w.db.accounts xs' w.db.ledger e ∙ sub_as_add _ _);
  }

  pub Shifts-credit : (id : Ident) (x : ℤ) → Shifts g (g.weight id x) (credit_account id x)
  unfolding credit_account looking
  Shifts-credit id x = record {
    shift = λ w.
        ShiftsTo-store _ w _ (λ xs' e. g.credited (λ b. true) id x w.db.accounts xs' w.db.ledger e);
  }

  Shifts-insert :
      (t : Ident) (leg : LedgerLeg)
      → Shifts g (leg_shift g t leg) (modify λ db. record db { ledger = entry t leg ∷ db.ledger })
  unfolding modify
  Shifts-insert t leg = record { shift = λ w. entry_shift w leg.direction }
    where
      entry_shift :
          (w : World) (d : Direction)
          → g.value w.db.accounts (entry t (record leg { direction = d }) ∷ w.db.ledger)
            ≡ reading g w.db +ℤ leg_shift g t (record leg { direction = d })
      entry_shift w debit = g.debit_leg _ _ t leg.account_id leg.amount
      entry_shift w credit = g.credit_leg _ _ t leg.account_id leg.amount ∙ sub_as_add _ _

  Shifts-entry :
      (t : Ident) (leg : LedgerLeg) → Shifts g (leg_shift g t leg) (insert_ledger_entry t leg)
  unfolding insert_ledger_entry
  Shifts-entry t leg = Shifts-looking g λ db. Shifts-skip g (Shifts-fail_if g _ _) λ _.
      Shifts-skip g (Shifts-fail_if g _ _)
        λ _. Shifts-skip g (Shifts-fail_if g _ _) λ _. Shifts-insert t leg

  Shifts-legs :
      (t : Ident) (legs : List LedgerLeg) → Shifts g (legs_shift g t legs) (insert_legs t legs)
  unfolding insert_legs
  Shifts-legs t [] = Shifts-pure g tt
  Shifts-legs t (leg ∷ legs) = Shifts-bind g (Shifts-entry t leg) (λ _. Shifts-legs t legs)

  pub Shifts-post_ledger :
      (t : Ident) (legs : List LedgerLeg) → Shifts g (legs_shift g t legs) (post_ledger t legs)
  unfolding post_ledger
  Shifts-post_ledger t legs =
      Shifts-skip g (Shifts-fail_if g _ _)
        λ _. Shifts-skip g (Shifts-fail_if g _ _) λ _. Shifts-legs t legs

  end_tx-steady :
      {A : Type 0} (w : World) (r : Outcome A)
      → ShiftsTo g (pos 0) w r
      → reading g (world_of (end_tx w.db r)).db ≡ reading g w.db
  unfolding end_tx
  end_tx-steady w (ok a w') h = elim (Bool-cases (commits w.db w'.db)) [
    | inl yes' ↦ rw yes' (h ∙ sym' _)
    | inr no' ↦ rw no' refl
  ]
    where
      sym' : (a : ℤ) → a +ℤ pos 0 ≡ a
      sym' a = omega int_laws
  end_tx-steady w (err e w') h = refl

  -- A transaction whose body moves nothing where it succeeds moves nothing at all.
  pub Steady-tx : {A : Type 0} (m : M A) → Shifts g (pos 0) m → Steady g (tx m)
  unfolding tx
  Steady-tx m h = record { kept = λ w. end_tx-steady w (m w) (h.shift w) }
