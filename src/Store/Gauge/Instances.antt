-- ===== src/Store/Gauge/Instances.antt =====
-- Three gauges: the money in all accounts; how far an account's balance is from its ledger, which is
-- what the nightly reconciliation compares; and the imbalance of the entries of one transaction.
use offline_pay.Base.{◌≡◌, refl, List, [], ◌∷◌, ◌==◌, if◌then◌else◌}
use offline_pay.Base.Int.{ℤ, pos, ◌+ℤ◌, ◌-ℤ◌, int_laws}
use offline_pay.Domain.Status.{Direction, debit, credit}
use offline_pay.Domain.Tokens.{Ident}
use offline_pay.Store.Rows.{Account, LedgerEntry}
use offline_pay.Store.Monad.{imbalance}
use offline_pay.Store.Accounts.Hit.{Hit, here, there, adjust-Hit}
use offline_pay.Store.Gauge.{Gauge, Level}

pub right_zero : (a : ℤ) → a ≡ a +ℤ pos 0
right_zero a = omega int_laws

pub minus_zero : (a : ℤ) → a ≡ a -ℤ pos 0
minus_zero a = omega int_laws

-- The money in all accounts.
pub money : List Account → ℤ
money [] = pos 0
money (a ∷ rest) = a.balance +ℤ money rest

pub money-credited :
    (id : Ident) (x : ℤ) (xs xs' : List Account)
    → Hit (λ b. b +ℤ x) id xs xs'
    → money xs' ≡ money xs +ℤ x
unfolding money
money-credited id x _ _ (here _) = omega int_laws
money-credited id x _ _ (there _ h) = rw (money-credited id x _ _ h) (omega int_laws)

pub money-debited :
    (id : Ident) (x : ℤ) (xs xs' : List Account)
    → Hit (λ b. b -ℤ x) id xs xs'
    → money xs' ≡ money xs -ℤ x
unfolding money
money-debited id x _ _ (here _) = omega int_laws
money-debited id x _ _ (there _ h) = rw (money-debited id x _ _ h) (omega int_laws)

abbrev pub money_gauge : Gauge
money_gauge = record {
  value = λ xs es. money xs;
  weight = λ id x. x;
  leg_weight = λ t id x. pos 0;
  credited = λ guard id x xs xs' es e. money-credited id x xs xs' (adjust-Hit guard _ id xs xs' e);
  debited = λ guard id x xs xs' es e. money-debited id x xs xs' (adjust-Hit guard _ id xs xs' e);
  debit_leg = λ xs es t id x. right_zero (money xs);
  credit_leg = λ xs es t id x. minus_zero (money xs);
}

pub money_gauge-Level : Level money_gauge
money_gauge-Level = record { level = λ t a b x. refl }

-- The balance of the account with an id, or 0.
unfoldable pub balance_of : Ident → List Account → ℤ
balance_of id [] = pos 0
balance_of id (a ∷ rest) = if a.id == id then a.balance else balance_of id rest

-- `x` where the ids agree.
abbrev pub at_id : Ident → Ident → ℤ → ℤ
at_id id j x = if j == id then x else pos 0

-- Credits minus debits of an account's entries: `AccountLedgerSum`.
unfoldable pub ledger_of : Ident → List LedgerEntry → ℤ
ledger_of id [] = pos 0
ledger_of id (e ∷ es) = signed e.direction (at_id id e.account_id e.amount) (ledger_of id es)
  where
    signed : Direction → ℤ → ℤ → ℤ
    signed debit x rest = rest -ℤ x
    signed credit x rest = rest +ℤ x

-- How far an account's balance is from its ledger.
pub drift : Ident → List Account → List LedgerEntry → ℤ
drift id xs es = balance_of id xs -ℤ ledger_of id es

pub balance_of-credited :
    (a id : Ident) (x : ℤ) (xs xs' : List Account)
    → Hit (λ b. b +ℤ x) id xs xs'
    → balance_of a xs' ≡ balance_of a xs +ℤ at_id a id x
unfolding balance_of
balance_of-credited a id x _ _ (here {a = r} e) = grind int_laws
balance_of-credited a id x _ _ (there {a = r} ne h) =
    grind (int_laws, balance_of-credited a id x _ _ h)

pub balance_of-debited :
    (a id : Ident) (x : ℤ) (xs xs' : List Account)
    → Hit (λ b. b -ℤ x) id xs xs'
    → balance_of a xs' ≡ balance_of a xs -ℤ at_id a id x
unfolding balance_of
balance_of-debited a id x _ _ (here {a = r} e) = grind int_laws
balance_of-debited a id x _ _ (there {a = r} ne h) =
    grind (int_laws, balance_of-debited a id x _ _ h)

module _ (a id : Ident) (x : ℤ) (xs xs' : List Account) (es : List LedgerEntry) where
  pub drift-credited : Hit (λ b. b +ℤ x) id xs xs' → drift a xs' es ≡ drift a xs es +ℤ at_id a id x
  unfolding drift
  drift-credited h = rw (balance_of-credited a id x xs xs' h) (omega int_laws)

  pub drift-debited : Hit (λ b. b -ℤ x) id xs xs' → drift a xs' es ≡ drift a xs es -ℤ at_id a id x
  unfolding drift
  drift-debited h = rw (balance_of-debited a id x xs xs' h) (omega int_laws)

module _ (a : Ident) (xs : List Account) (es : List LedgerEntry) (t id : Ident) (x : ℤ) where
  pub drift-debit_leg :
      drift a xs (record { txn_id = t; account_id = id; direction = debit; amount = x } ∷ es)
      ≡ drift a xs es +ℤ at_id a id x
  unfolding drift ledger_of
  drift-debit_leg = omega int_laws

  pub drift-credit_leg :
      drift a xs (record { txn_id = t; account_id = id; direction = credit; amount = x } ∷ es)
      ≡ drift a xs es -ℤ at_id a id x
  unfolding drift ledger_of
  drift-credit_leg = omega int_laws

pub +ℤ_swap : (a b : ℤ) → a +ℤ b ≡ b +ℤ a
+ℤ_swap a b = omega int_laws

abbrev pub drift_gauge : Ident → Gauge
drift_gauge a = record {
  value = drift a;
  weight = at_id a;
  leg_weight = λ t. at_id a;
  credited =
      λ guard id x xs xs' es e. drift-credited a id x xs xs' es (adjust-Hit guard _ id xs xs' e);
  debited =
      λ guard id x xs xs' es e. drift-debited a id x xs xs' es (adjust-Hit guard _ id xs xs' e);
  debit_leg = drift-debit_leg a;
  credit_leg = drift-credit_leg a;
}

pub drift_gauge-Level : (a : Ident) → Level (drift_gauge a)
drift_gauge-Level a = record { level = λ t i j x. +ℤ_swap (at_id a i x) (at_id a j x) }

module _ (u : Ident) (es : List LedgerEntry) (t id : Ident) (x : ℤ) where
  pub imbalance-debit_leg :
      imbalance u (record { txn_id = t; account_id = id; direction = debit; amount = x } ∷ es)
      ≡ imbalance u es +ℤ at_id u t x
  unfolding imbalance
  imbalance-debit_leg = grind int_laws

  pub imbalance-credit_leg :
      imbalance u (record { txn_id = t; account_id = id; direction = credit; amount = x } ∷ es)
      ≡ imbalance u es -ℤ at_id u t x
  unfolding imbalance
  imbalance-credit_leg = grind int_laws

abbrev pub imbalance_gauge : Ident → Gauge
imbalance_gauge u = record {
  value = λ xs es. imbalance u es;
  weight = λ id x. pos 0;
  leg_weight = λ t id x. at_id u t x;
  credited = λ guard id x xs xs' es e. right_zero (imbalance u es);
  debited = λ guard id x xs xs' es e. minus_zero (imbalance u es);
  debit_leg = λ xs es. imbalance-debit_leg u es;
  credit_leg = λ xs es. imbalance-credit_leg u es;
}

pub imbalance_gauge-Level : (u : Ident) → Level (imbalance_gauge u)
imbalance_gauge-Level u = record { level = λ t a b x. refl }

-- The balance of one account.
abbrev pub balance_gauge : Ident → Gauge
balance_gauge a = record {
  value = λ xs es. balance_of a xs;
  weight = at_id a;
  leg_weight = λ t id x. pos 0;
  credited =
      λ guard id x xs xs' es e. balance_of-credited a id x xs xs' (adjust-Hit guard _ id xs xs' e);
  debited =
      λ guard id x xs xs' es e. balance_of-debited a id x xs xs' (adjust-Hit guard _ id xs xs' e);
  debit_leg = λ xs es t id x. right_zero (balance_of a xs);
  credit_leg = λ xs es t id x. minus_zero (balance_of a xs);
}
