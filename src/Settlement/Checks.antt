-- ===== src/Settlement/Checks.antt =====
-- What it takes for each check of `submitOne` (settlement/service.go) to pass.
use offline_pay.Base.{
  ◌≡◌, refl, sym, ap, ◌∙◌, inl, inr, ◌⊎◌, Bool, true, false, Option, none, some, arith, ◌==◌, not,
  find, Bool-cases, ltb, ==→eq, subst,
}
use offline_pay.Base.Int.{ℤ, pos, ◌<ℤ◌, leb_ℤ→lt, eqb_ℤ}
use offline_pay.Domain.Tokens.{Ident, Time, Bytes, BankSigningKey, CeilingToken, add_time}
use offline_pay.Store.Rows.{Db, Reason}
use offline_pay.Store.Monad.{World, M, Signal, pure, emit, branch, ◌>>◌}
use offline_pay.Store.Ceilings.{get_bank_signing_key}
use offline_pay.Store.Payments.{same_bytes}
use offline_pay.Store.Runs.{Runs, bind-ok, pure-ok, one-ok, fail-ok, branch-ok, option-ok}
use offline_pay.Store.Runs.Calls.{get_ceiling_token-ok}
use offline_pay.Crypto.{hash_request}
use offline_pay.Settlement.Types.{Service, ClaimItem, request_grace}
use offline_pay.Settlement.Claim.{
  check_parties, bank_signed, payer_signed, card_signed, receiver_signed, card_key,
  check_request_signatures, check_signatures, check_request_terms, check_binding, check_window,
  check_live, live_status,
}

-- Payer, payee, ceiling, submitter and request belong together.
pub record Parties (u : Ident) (item : ClaimItem) : Type 0 where
  pub distinct : (item.payment.payer_id == item.payment.payee_id) ≡ false
  pub same_payer : item.payment.payer_id ≡ item.ceiling.payer_id
  pub same_ceiling : item.payment.ceiling_token_id ≡ item.ceiling.id
  pub party : (u ≡ item.payment.payer_id) ⊎ (u ≡ item.payment.payee_id)
  pub same_receiver : item.request.receiver_id ≡ item.payment.payee_id
  pub own_card : item.request.receiver_display_card.user_id ≡ item.request.receiver_id

pub check_parties-Parties :
    (u : Ident) (item : ClaimItem) → check_parties u item ≡ none → Parties u item
unfolding check_parties
check_parties-Parties u item h = record {
  distinct = ground arith;
  same_payer = ground arith;
  same_ceiling = ground arith;
  party = ground arith;
  same_receiver = ground arith;
  own_card = ground arith;
}

-- A test that names a reason where it holds has failed, when no reason was named.
module _ {w w' : World} where
  pub refused :
      (b : Bool) (reason : Reason) {k : M (Option Reason)}
      → Runs (branch b (pure (some reason)) k) w none w'
      → (b ≡ false) × Runs k w none w'
  unfolding branch pure
  refused true reason h = grind arith
  refused false reason h = (refl, h)

  pub reported :
      (b : Bool) (s : Signal) (reason : Reason) {k : M (Option Reason)}
      → Runs (branch b (emit s >> pure (some reason)) k) w none w'
      → (b ≡ false) × Runs k w none w'
  unfolding branch
  reported true s reason h = none_some (pure-ok (bind-ok _ h).1).0
    where
      none_some : {P : Type 0} → none ≡ some reason → P
      none_some e = grind arith
  reported false s reason h = (refl, h)

-- Every signature of a claim is good, under keys that the bank has on file.
pub record Signed (s : Service) (item : ClaimItem) (db : Db) : Type 0 where
  pub bank_key : BankSigningKey
  pub on_file : find (λ k. k.key_id == item.ceiling.bank_key_id) db.bank_keys ≡ some bank_key
  pub card_key : BankSigningKey
  pub card_on_file :
      find (λ k. k.key_id == item.request.receiver_display_card.bank_key_id) db.bank_keys
      ≡ some card_key
  pub bank : bank_signed s bank_key item ≡ true
  pub payer : payer_signed s item ≡ true
  pub card : card_signed s card_key item ≡ true
  pub receiver : receiver_signed s item ≡ true

not-false : (b : Bool) → not b ≡ false → b ≡ true
not-false true h = refl
not-false false h = sym h

module _ (s : Service) (item : ClaimItem) (w w' : World) where
  bank_key-ok :
      (id : Ident) (k : BankSigningKey) (v : World)
      → Runs (get_bank_signing_key id) w k v
      → (find (λ k. k.key_id == id) w.db.bank_keys ≡ some k) × (v ≡ w)
  unfolding get_bank_signing_key
  bank_key-ok id k v h = one-ok _ h

  -- The key that the display card is checked under is the one that it names.
  card_key-ok :
      (key k : BankSigningKey) (v : World)
      → find (λ k. k.key_id == item.ceiling.bank_key_id) w.db.bank_keys ≡ some key
      → Runs (card_key key item) w k v
      → (find (λ k. k.key_id == item.request.receiver_display_card.bank_key_id) w.db.bank_keys
          ≡ some k)
        × (v ≡ w)
  unfolding card_key
  card_key-ok key k v e h = elim (branch-ok h) [
    | inl (same, run) ↦ (
      ap (λ id. find (λ k. k.key_id == id) w.db.bank_keys) (==→eq _ _ same)
          ∙ e
          ∙ ap some (sym (pure-ok run).0),
      (pure-ok run).1,
    )
    | inr (_, run) ↦ bank_key-ok _ k v run
  ]

  -- The signature checks pass only where all four signatures are good.
  pub check_signatures-Signed :
      Runs (check_signatures s item) w none w' → Signed s item w.db × (w' ≡ w)
  unfolding check_signatures check_request_signatures
  check_signatures-Signed h =
      let b = bind-ok _ h in
      let filed = bank_key-ok _ _ _ b.0.runs in
      let banked = reported _ _ _ b.1 in
      let paid = reported _ _ _ banked.1 in
      let c = bind-ok _ paid.1 in
      let carded = refused _ _ c.1 in
      let received = refused _ _ carded.1 in
      let named =
        card_key-ok b.0.result c.0.result c.0.after filed.0
          (subst (λ v. Runs (card_key b.0.result item) v c.0.result c.0.after) filed.1 c.0.runs) in
      (
        record {
          bank_key = b.0.result;
          on_file = filed.0;
          card_key = c.0.result;
          card_on_file = named.0;
          bank = not-false _ banked.0;
          payer = not-false _ paid.0;
          card = not-false _ carded.0;
          receiver = not-false _ received.0;
        },
        (pure-ok received.1).1 ∙ named.1,
      )

-- The payment answers the request: its nonce, hash and amount, before the request ran out.
pub record Answers (s : Service) (item : ClaimItem) (t : Time) : Type 0 where
  pub same_nonce : same_bytes item.payment.session_nonce item.request.session_nonce ≡ true
  pub hash : Bytes
  pub hashed : hash_request s.prim item.request ≡ some hash
  pub same_hash : same_bytes item.payment.request_hash hash ≡ true
  pub same_amount : (item.request.amount ≡ pos 0) ⊎ (item.payment.amount ≡ item.request.amount)
  pub in_time : ltb (add_time item.request.expires_at request_grace) t ≡ false

eqb_ℤ→eq : (a b : ℤ) → eqb_ℤ a b ≡ true → a ≡ b
eqb_ℤ→eq a b h = ground arith

module _ (s : Service) (item : ClaimItem) (t : Time) (w w' : World) where
  terms_amount :
      check_request_terms item t ≡ none
      → (item.request.amount ≡ pos 0) ⊎ (item.payment.amount ≡ item.request.amount)
  unfolding check_request_terms
  terms_amount h = elim (Bool-cases (eqb_ℤ item.request.amount (pos 0))) [
    | inl yes' ↦ inl (eqb_ℤ→eq _ (pos 0) yes')
    | inr no' ↦ inr (eqb_ℤ→eq item.payment.amount item.request.amount (ground arith))
  ]

  terms_time :
      check_request_terms item t ≡ none
      → ltb (add_time item.request.expires_at request_grace) t ≡ false
  unfolding check_request_terms
  terms_time h = ground arith

  pub check_binding-Answers : Runs (check_binding s item t) w none w' → Answers s item t × (w' ≡ w)
  unfolding check_binding
  check_binding-Answers h =
      let nonce = refused _ _ h in
      elim (option-ok nonce.1) [
        | inl (_, run) ↦ fail-ok _ run
        | inr (hash, hashed, run) ↦
            let same = refused _ _ run in
            let terms = pure-ok same.1 in
            (
              record {
                same_nonce = not-false _ nonce.0;
                hash = hash;
                hashed = hashed;
                same_hash = not-false _ same.0;
                same_amount = terms_amount (sym terms.0);
                in_time = terms_time (sym terms.0);
              },
              terms.1,
            )
      ]

  -- The payment's sequence number is past the ceiling's start, and the ceiling has not run out.
  pub check_window-ok :
      Runs (check_window s item t) w none w'
      → (item.ceiling.sequence_start <ℤ item.payment.sequence_number)
        × (ltb (add_time item.ceiling.expires_at s.clock_grace) t ≡ false)
        × (w' ≡ w)
  unfolding check_window
  check_window-ok h =
      let first = reported _ _ _ h in
      let second = refused _ _ first.1 in
      (
        leb_ℤ→lt item.payment.sequence_number item.ceiling.sequence_start first.0,
        second.0,
        (pure-ok second.1).1,
      )

  -- The server's own row of the ceiling lets claims through.
  pub check_live-ok :
      Runs (check_live item t) w none w'
      → (c : CeilingToken) × (find (λ d. d.id == item.ceiling.id) w.db.ceilings ≡ some c)
        × (live_status t c ≡ none)
        × (w' ≡ w)
  unfolding check_live
  check_live-ok h =
      let b = bind-ok _ h in
      let row = get_ceiling_token-ok _ b.0.runs in
      let end = pure-ok b.1 in (b.0.result, row.0, sym end.0, end.1 ∙ row.1)
