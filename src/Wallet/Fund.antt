-- ===== src/Wallet/Fund.antt =====
-- wallet/service.go: `FundOffline`, `fundOfflineInTx` and `signCeiling`.
use offline_pay.Base.{
  ℕ, ◌-◌, ◌%◌, Option, none, some, [], ◌∷◌, not, ◌==◌, if◌then◌else◌, length, is_some,
}
use offline_pay.Base.Int.{ℤ, pos, leb_ℤ, ltb_ℤ}
use offline_pay.Domain.Status.{
  active, TransactionKind, offline_fund, LifecycleStatus, Direction, debit, credit,
}
use offline_pay.Domain.Tokens.{
  Ident, Time, Bytes, add_time, CeilingToken, CeilingTokenPayload, BankSigningKey,
}
use offline_pay.Domain.Validate.{Invalid, validate_ceiling}
use offline_pay.Store.Rows.{main, lien_holding, TransactionRow}
use offline_pay.Store.Monad.{
  M, Done, pure, fail, read, fail_if, branch, option, new_id, now, tx, ◌>>=◌, ◌>>◌,
  amount_not_positive, ttl_not_positive, active_ceiling_exists, insufficient_funds,
  missing_payer_pubkey, suspended, gate_failed, signing_failed, registration_failed,
}
use offline_pay.Store.Accounts.{
  get_account_id, get_account_balance, post_ledger, debit_account, credit_account,
}
use offline_pay.Store.Ceilings.{
  active_ceiling_of, get_user_payer_pubkey, get_active_bank_signing_key, issue_ceiling_token,
}
use offline_pay.Store.Transactions.{record_transaction}
use offline_pay.Wallet.Types.{Service}

-- `crypto.SignCeiling`, and `SignCeilingWithSigner`: validate, encode, sign.
sign_encoded : (Bytes → Option Bytes) → Option Invalid → Option Bytes → Option Bytes
sign_encoded sign (some reason) encoded = none
sign_encoded sign none none = none
sign_encoded sign none (some msg) = sign msg

-- `ed25519.PrivateKeySize`
abbrev private_key_size : ℕ
private_key_size = 64

sign_locally : Service → BankSigningKey → CeilingTokenPayload → Option Bytes
unfolding sign_encoded
sign_locally s key p =
    if length key.private_key == private_key_size
    then sign_encoded (λ msg. some (s.ed25519_sign key.private_key msg)) (validate_ceiling p)
        (s.encode_ceiling p)
    else none

unfoldable pub sign_ceiling : Service → BankSigningKey → CeilingTokenPayload → Option Bytes
unfolding sign_locally sign_encoded
sign_ceiling s key p = elim s.signer [
  | none ↦ sign_locally s key p
  | some sign ↦ sign_encoded (sign key.key_id) (validate_ceiling p) (s.encode_ceiling p)
]

-- `Truncate(time.Microsecond)`
abbrev pub truncate : Time → Time
truncate t = t - t % 1000

abbrev pub new_payload : Ident → ℤ → Time → ℤ → Bytes → Ident → CeilingTokenPayload
new_payload user amount issued_at ttl pubkey key_id = record {
  payer_id = user;
  ceiling_amount = amount;
  issued_at = issued_at;
  expires_at = add_time issued_at ttl;
  sequence_start = pos 0;
  payer_public_key = pubkey;
  bank_key_id = key_id;
}

abbrev pub new_ceiling : Ident → CeilingTokenPayload → Bytes → CeilingToken
new_ceiling id p sig = record {
  id = id;
  payer_id = p.payer_id;
  ceiling_amount = p.ceiling_amount;
  issued_at = p.issued_at;
  expires_at = p.expires_at;
  sequence_start = p.sequence_start;
  payer_public_key = p.payer_public_key;
  bank_key_id = p.bank_key_id;
  bank_signature = sig;
  status = active;
  release_after = none;
}

-- The transactions row of a movement between a user's own accounts.
abbrev pub own_row : Ident → Ident → TransactionKind → Direction → ℤ → Ident → TransactionRow
own_row id user kind direction amount ceiling = record {
  id = id;
  group_id = id;
  user_id = user;
  counterparty = none;
  kind = kind;
  status = LifecycleStatus.completed;
  direction = direction;
  amount = amount;
  settled_amount = none;
  payment_token_id = none;
  transfer_id = none;
  ceiling_id = some ceiling;
  failure_reason = none;
}

-- The row, the two legs, and the two balances of a movement from one account to another.
unfoldable pub move : TransactionRow → Ident → Ident → ℤ → M Done
move row from to amount = do
  record_transaction row
  post_ledger row.id (
      record { account_id = from; direction = debit; amount = amount }
      ∷ record { account_id = to; direction = credit; amount = amount }
      ∷ [])
  debit_account from amount
  credit_account to amount

-- 6) and 7): insert the ceiling, then move the money into the lien.
unfoldable pub lien_for : Service → Ident → ℤ → Ident → Ident → CeilingToken → M CeilingToken
lien_for s user amount main_account lien c = do
  issued ← issue_ceiling_token s.supply c
  txn ← new_id s.supply
  move (own_row txn user offline_fund debit amount c.id) main_account lien amount
  pure issued

-- 5): sign the payload of the new ceiling.
unfoldable pub issue_and_lien : Service → Ident → ℤ → ℤ → Bytes → Ident → Ident → M CeilingToken
issue_and_lien s user amount ttl pubkey main_account lien = do
  key ← get_active_bank_signing_key
  time ← now s.clock
  id ← new_id s.supply
  let payload = new_payload user amount (truncate time) ttl pubkey key.key_id
  sig ← option (sign_ceiling s key payload) (fail signing_failed) (λ sig. pure sig)
  lien_for s user amount main_account lien (new_ceiling id payload sig)

unfoldable pub fund_offline_in_tx : Service → Ident → ℤ → ℤ → M CeilingToken
fund_offline_in_tx s user amount ttl = do
  earlier ← read (active_ceiling_of user)
  fail_if (is_some earlier) active_ceiling_exists
  pubkey ← get_user_payer_pubkey user
  fail_if (length pubkey == 0) missing_payer_pubkey
  main_account ← get_account_id user main
  lien ← get_account_id user lien_holding
  balance ← get_account_balance user main
  fail_if (ltb_ℤ balance amount) insufficient_funds
  issue_and_lien s user amount ttl pubkey main_account lien

-- The fraud gate: an error, a suspension, or the amount that is allowed.
unfoldable pub clamped : Service → Ident → ℤ → M ℤ
clamped s user amount = option (s.clamp user amount) (fail gate_failed) λ allowed.
    branch (leb_ℤ allowed (pos 0)) (fail suspended)
      (pure (if ltb_ℤ allowed amount then allowed else amount))

-- The checks in front of the transaction.
unfoldable pub admit : Service → Ident → ℤ → ℤ → M ℤ
admit s user amount ttl = do
  fail_if (leb_ℤ amount (pos 0)) amount_not_positive
  fail_if (leb_ℤ ttl (pos 0)) ttl_not_positive
  clamped s user amount

-- `RegisterCeiling`, after the commit.
unfoldable pub register : Service → Ident → CeilingToken → M CeilingToken
register s user issued = do
  fail_if (not (s.register_ceiling user issued.id issued.sequence_start)) registration_failed
  pure issued

unfoldable pub fund_offline : Service → Ident → ℤ → ℤ → M CeilingToken
fund_offline s user amount ttl = do
  allowed ← admit s user amount ttl
  issued ← tx (fund_offline_in_tx s user allowed ttl)
  register s user issued
