-- ===== src/Tests/Fixture.antt =====
-- A small bank for the tests: a payer (10) with an offline ceiling, a payee (20), and a claim of 40
-- against a ceiling of 100. Encodings are trivial and every signature is good.
use offline_pay.Base.{Bool, true, false, none, some, [], ◌∷◌, ◌+◌}
use offline_pay.Base.Int.{ℤ, pos}
use offline_pay.Crypto.{Primitives}
use offline_pay.Domain.Status.{active}
use offline_pay.Domain.Tokens.{Ident, Bytes, CeilingToken, BankSigningKey, DisplayCard}
use offline_pay.Store.Rows.{
  Db, Account, AccountKind, main, lien_holding, receiving_pending, suspense, User, tier_one,
  OutboxPayload, TransferPayload, transfer_event, finalize_payer,
}
use offline_pay.Store.Monad.{World}
use offline_pay.Settlement.Types as Settlement
use offline_pay.Settlement.Types.{ClaimItem}
use offline_pay.Wallet.Types as Wallet
use offline_pay.Transfer.Types as Transfer
use offline_pay.Transfer.Types.{InitiateTransferInput}

abbrev pub prim : Primitives
prim = record {
  ed25519_verify = λ key msg sig. true;
  sha256 = λ msg. 7 ∷ [];
  encode_ceiling = λ p. some [];
  encode_payment = λ p. some [];
  encode_card = λ p. some [];
  encode_request_payload = λ p. some [];
  encode_request = λ p. some [];
}

abbrev pub settlement : Settlement.Service
settlement = record {
  prim = prim;
  supply = λ n. 1000 + n;
  clock = λ n. 500;
  clock_grace = pos 0;
  auto_settle_timeout = pos 100;
  suspense_account = 9;
  range_order = λ ids. ids;
}

abbrev pub wallet : Wallet.Service
wallet = record {
  supply = λ n. 2000 + n;
  clock = λ n. 3000;
  clamp = λ user amount. some (pos 30);
  signer = some (λ id msg. some (5 ∷ []));
  encode_ceiling = λ p. some [];
  ed25519_sign = λ key msg. [];
  register_ceiling = λ user id start. true;
  auto_settle_timeout = pos 0;
}

abbrev account : Ident → Ident → AccountKind → ℤ → Account
account id user kind balance = record { id = id; user_id = user; kind = kind; balance = balance }

abbrev pub key : BankSigningKey
key = record { key_id = 77; public_key = 1 ∷ []; private_key = [] }

abbrev pub ceiling : CeilingToken
ceiling = record {
  id = 50;
  payer_id = 10;
  ceiling_amount = pos 100;
  issued_at = 100;
  expires_at = 900;
  sequence_start = pos 0;
  payer_public_key = 2 ∷ [];
  bank_key_id = 77;
  bank_signature = 3 ∷ [];
  status = active;
  release_after = none;
}

abbrev pub payee_number : Bytes
payee_number = b'2' ∷ b'2' ∷ b'2' ∷ b'2' ∷ b'2' ∷ b'2' ∷ b'2' ∷ b'2' ∷ b'2' ∷ b'2' ∷ []

abbrev user : Ident → Bytes → User
user id number = record {
  id = id;
  account_number = number;
  kyc_tier = tier_one;
  account_age_hours = pos 100;
}

abbrev no_payload : TransferPayload
no_payload = record {
  transfer_id = 0;
  sender_user_id = 0;
  receiver_user_id = 0;
  receiver_account_number = [];
  amount = pos 0;
  reference = [];
}

abbrev decoded : OutboxPayload → TransferPayload × Bool
decoded (transfer_event tp) = (tp, true)
decoded (finalize_payer payer reason time) = (no_payload, false)

-- The fraud rules run, and every publish is confirmed.
abbrev pub transfers : Transfer.Service
transfers = record {
  supply = λ n. 3000 + n;
  clock = λ n. 200_000_000_000_000 + n;
  zones = record { lagos = 3_600_000_000_000; session = 0 };
  cached_receiver = λ number. none;
  cached_tier = λ user. none;
  scores_fraud = true;
  decode_transfer = decoded;
  publishes = λ id n. true;
  batch_size = pos 0;
}

abbrev pub transfer_input : InitiateTransferInput
transfer_input = record {
  sender_user_id = 10;
  receiver_account_number = payee_number;
  amount = pos 150;
  reference = 8 ∷ [];
}

-- The payer has 400 left in the main account and 100 in the lien.
abbrev pub db : Db
db = record {
  accounts =
      account 1 10 main (pos 400)
      ∷ account 2 10 lien_holding (pos 100)
      ∷ account 3 20 main (pos 0)
      ∷ account 4 20 receiving_pending (pos 0)
      ∷ account 9 99 suspense (pos 0)
      ∷ [];
  ledger = [];
  ceilings = ceiling ∷ [];
  payments = [];
  transactions = [];
  outbox = [];
  transfers = [];
  processed_events = [];
  fraud_scores = [];
  users =
      user 10 (b'1' ∷ b'1' ∷ b'1' ∷ b'1' ∷ b'1' ∷ b'1' ∷ b'1' ∷ b'1' ∷ b'1' ∷ b'1' ∷ [])
      ∷ user 20 payee_number
      ∷ [];
  reconciliation_runs = [];
  bank_keys = key ∷ [];
  active_bank_key = some key;
  payer_pubkeys = λ user. some (2 ∷ []);
}

abbrev pub world : World
world = record { db = db; ids_drawn = 0; clock_reads = 0; signals = [] }

-- The same bank before any ceiling was issued.
abbrev pub unfunded : World
unfunded = record { db = record db { ceilings = [] }; ids_drawn = 0; clock_reads = 0; signals = [] }

abbrev card : DisplayCard
card = record {
  user_id = 20;
  display_name = 4 ∷ [];
  account_number = 4 ∷ [];
  issued_at = 50;
  bank_key_id = 77;
  server_signature = 5 ∷ [];
}

abbrev pub claim : ClaimItem
claim = record {
  payment = record {
    payer_id = 10;
    payee_id = 20;
    amount = pos 40;
    sequence_number = pos 1;
    remaining_ceiling = pos 60;
    timestamp = 200;
    ceiling_token_id = 50;
    session_nonce = 6 ∷ [];
    request_hash = 7 ∷ [];
    payer_signature = 8 ∷ [];
  };
  ceiling = ceiling;
  request = record {
    receiver_id = 20;
    receiver_display_card = card;
    amount = pos 40;
    session_nonce = 6 ∷ [];
    issued_at = 150;
    expires_at = 800;
    receiver_device_pubkey = 9 ∷ [];
    receiver_signature = 9 ∷ [];
  };
}
