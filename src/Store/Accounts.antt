-- ===== src/Store/Accounts.antt =====
-- pgrepo/repo.go: accounts and the ledger. An UPDATE touches the one row with the id, since the id is
-- the primary key; it fails on the CHECK `kind = 'suspense' OR balance_kobo >= 0` and where the new
-- balance is no BIGINT.
pub mod Hit
pub mod Update
use offline_pay.Base.{
  ℕ, Bool, true, false, Option, none, some, List, [], ◌∷◌, ◌&&◌, ◌||◌, not, ltb, ◌==◌,
  if◌then◌else◌, find, length,
}
use offline_pay.Base.Int.{ℤ, pos, ◌+ℤ◌, ◌-ℤ◌, leb_ℤ, fits_int64}
use offline_pay.Domain.Status.{Direction}
use offline_pay.Domain.Tokens.{Ident, no_id}
use offline_pay.Store.Rows.{
  Account, AccountKind, main, lien_holding, receiving_pending, suspense, LedgerEntry, Db,
}
use offline_pay.Store.Monad.{
  M, Done, no_rows, check_violation, foreign_key_violation, txn_id_required, two_legs_required,
  pure, fail, one, looking, modify, fail_if, ◌>>=◌, ◌>>◌,
}

kind_rank : AccountKind → ℕ
kind_rank main = 0
kind_rank lien_holding = 1
kind_rank receiving_pending = 2
kind_rank suspense = 3

pub same_kind : AccountKind → AccountKind → Bool
unfolding kind_rank
same_kind a b = kind_rank a == kind_rank b

abbrev pub is_suspense : AccountKind → Bool
is_suspense suspense = true
is_suspense _ = false

-- `GetAccountByUserAndKind`
unfoldable pub account_of : Ident → AccountKind → Db → Option Account
unfolding same_kind
account_of user kind db = find (λ a. (a.user_id == user) && same_kind a.kind kind) db.accounts

unfoldable pub get_account_id : Ident → AccountKind → M Ident
unfolding account_of
get_account_id user kind = do a ← one (account_of user kind); pure a.id

unfoldable pub get_account_balance : Ident → AccountKind → M ℤ
unfolding account_of
get_account_balance user kind = do a ← one (account_of user kind); pure a.balance

-- What an UPDATE of one balance comes to.
pub data Adjusted : Type 0 where
  missing violated : Adjusted
  written : List Account → Adjusted

unfoldable pub adjust_row : (ℤ → Bool) → (ℤ → ℤ) → Account → List Account → Adjusted
unfolding fits_int64
adjust_row guard f a rest =
    if guard a.balance
    then (if (is_suspense a.kind || leb_ℤ (pos 0) (f a.balance)) && fits_int64 (f a.balance)
        then written (record a { balance = f a.balance } ∷ rest)
        else violated)
    else missing

abbrev pub behind : Account → Adjusted → Adjusted
behind a (written rest) = written (a ∷ rest)
behind a missing = missing
behind a violated = violated

unfoldable pub adjust : (ℤ → Bool) → (ℤ → ℤ) → Ident → List Account → Adjusted
unfolding adjust_row
adjust guard f id [] = missing
adjust guard f id (a ∷ rest) =
    if a.id == id then adjust_row guard f a rest else behind a (adjust guard f id rest)

abbrev pub store_accounts : Adjusted → M Done
store_accounts missing = fail no_rows
store_accounts violated = fail check_violation
store_accounts (written accounts) = modify λ db. record db { accounts = accounts }

-- `UPDATE ... WHERE id = $1 AND balance_kobo >= $2`: too little money reads as no row.
unfoldable pub debit_account : Ident → ℤ → M Done
unfolding adjust
debit_account id amount =
    looking λ db. store_accounts (adjust (λ b. leb_ℤ amount b) (λ b. b -ℤ amount) id db.accounts)

unfoldable pub force_debit_account : Ident → ℤ → M Done
unfolding adjust
force_debit_account id amount =
    looking λ db. store_accounts (adjust (λ b. true) (λ b. b -ℤ amount) id db.accounts)

unfoldable pub credit_account : Ident → ℤ → M Done
unfolding adjust
credit_account id amount =
    looking λ db. store_accounts (adjust (λ b. true) (λ b. b +ℤ amount) id db.accounts)

-- `LedgerLeg`
pub record LedgerLeg : Type 0 where
  pub account_id : Ident
  pub direction : Direction
  pub amount : ℤ

has_transaction : Ident → Db → Bool
has_transaction id db = elim (find (λ t. t.id == id) db.transactions) [
  | none ↦ false
  | some _ ↦ true
]

has_account : Ident → Db → Bool
has_account id db = elim (find (λ a. a.id == id) db.accounts) [ none ↦ false | some _ ↦ true ]

abbrev pub entry : Ident → LedgerLeg → LedgerEntry
entry txn_id leg = record {
  txn_id = txn_id;
  account_id = leg.account_id;
  direction = leg.direction;
  amount = leg.amount;
}

-- `InsertLedgerEntry`, with the CHECK on the amount and the two foreign keys.
unfoldable pub insert_ledger_entry : Ident → LedgerLeg → M Done
unfolding has_transaction has_account
insert_ledger_entry txn_id leg = looking λ db. do
  fail_if (leb_ℤ leg.amount (pos 0)) check_violation
  fail_if (not (has_transaction txn_id db)) foreign_key_violation
  fail_if (not (has_account leg.account_id db)) foreign_key_violation
  modify λ now_db. record now_db { ledger = entry txn_id leg ∷ now_db.ledger }

unfoldable pub insert_legs : Ident → List LedgerLeg → M Done
unfolding insert_ledger_entry
insert_legs txn_id [] = pure tt
insert_legs txn_id (leg ∷ legs) = insert_ledger_entry txn_id leg >> insert_legs txn_id legs

unfoldable pub post_ledger : Ident → List LedgerLeg → M Done
unfolding insert_legs
post_ledger txn_id legs = do
  fail_if (txn_id == no_id) txn_id_required
  fail_if (ltb (length legs) 2) two_legs_required
  insert_legs txn_id legs
