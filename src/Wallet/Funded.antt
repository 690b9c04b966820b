-- ===== src/Wallet/Funded.antt =====
-- What a successful `FundOffline` (wallet/service.go) did: the amount it allowed went from the main
-- account into the lien, and the user has one active ceiling of that amount.
use mathlib.Core.Option.{some-injective}
use offline_pay.Base.{
  ℕ, ◌≡◌, refl, sym, ap, ◌∙◌, inl, inr, false, Option, none, some, List, ◌∷◌, arith, ◌==◌, find,
  subst, is_some, ==_refl, if◌then◌else◌, ◌&&◌, ◌||◌,
}
use offline_pay.Base.Int.{ℤ, pos, ◌<ℤ◌, ◌≤ℤ◌, leb_ℤ, ltb_ℤ, leb_ℤ→lt, ltb_ℤ→le}
use offline_pay.Domain.Status.{is_active}
use offline_pay.Domain.Tokens.{Ident, Bytes, CeilingToken}
use offline_pay.Store.Rows.{Db, Account, main, lien_holding}
use offline_pay.Store.Monad.{World, M, fail_if, insufficient_funds, ◌>>=◌, ◌>>◌}
use offline_pay.Store.Accounts.{account_of, get_account_id, get_account_balance}
use offline_pay.Store.Ceilings.{
  active_ceiling_of, get_active_bank_signing_key, get_user_payer_pubkey, issue_ceiling_token,
  create_ceiling_token, live_ceiling_of, issued,
}
use offline_pay.Store.Runs.{
  Runs, bind-ok, pure-ok, read-ok, one-ok, looking-ok, new_id-ok, now-ok, modify-ok, fail_if-ok,
  fail-ok, option-ok, branch-ok, tx-ok, Keeps-ok,
}
use offline_pay.Store.Runs.Calls.{get_account_id-ok, get_account_balance-ok}
use offline_pay.Wallet.Types.{Service}
use offline_pay.Wallet.Fund.{
  lien_for, issue_and_lien, fund_offline_in_tx, clamped, admit, register, fund_offline,
}
use offline_pay.Wallet.Effects.{Moved, Moved-cast, move-Moved, move-Keeps, ceilings_of, accounts_of}

-- Inserting a ceiling puts it in front, where no other of the payer is live.
create-ok :
    (c d : CeilingToken) (w w' : World)
    → Runs (create_ceiling_token c) w d w'
    → (d ≡ issued c)
      × (pos 0 <ℤ c.ceiling_amount)
      × (live_ceiling_of c.payer_id w.db ≡ none)
      × (w'.db ≡ record w.db { ceilings = issued c ∷ w.db.ceilings })
unfolding create_ceiling_token
create-ok c d w w' h =
    let b = bind-ok _ (looking-ok _ h) in
    let checked = fail_if-ok _ b.0.runs in
    let e = bind-ok _ b.1 in
    let fresh = fail_if-ok _ e.0.runs in
    let f = bind-ok _ e.1 in
    let alone = fail_if-ok _ f.0.runs in
    let k = bind-ok _ f.1 in
    let wrote = modify-ok _ k.0.runs in
    let end = pure-ok k.1 in
    (
      end.0,
      positive c checked.0,
      no_row _ alone.0,
      ap (λ v. v.db) end.1
          ∙ wrote
          ∙ ap (λ v. record v.db { ceilings = issued c ∷ v.db.ceilings })
              (alone.1 ∙ fresh.1 ∙ checked.1),
    )
  where
    positive :
        (c : CeilingToken)
        → (leb_ℤ c.ceiling_amount (pos 0) || ltb_ℤ c.sequence_start (pos 0)) ≡ false
        → pos 0 <ℤ c.ceiling_amount
    positive c h = ground arith

    no_row : (o : Option CeilingToken) → is_some o ≡ false → o ≡ none
    no_row none h = refl
    no_row (some _) h = grind arith

abbrev with_ceiling : CeilingToken → Db → Db
with_ceiling c db = record db { ceilings = issued c ∷ db.ceilings }

abbrev named : CeilingToken → Ident → CeilingToken
named c id = record c { id = id }

issue-ok :
    (supply : ℕ → Ident) (c d : CeilingToken) (w w' : World)
    → Runs (issue_ceiling_token supply c) w d w'
    → (id : Ident) × (d ≡ issued (named c id))
      × (pos 0 <ℤ c.ceiling_amount)
      × (live_ceiling_of c.payer_id w.db ≡ none)
      × (w'.db ≡ record w.db { ceilings = issued (named c id) ∷ w.db.ceilings })
unfolding issue_ceiling_token
issue-ok supply c d w w' h =
    let b = bind-ok _ h in
    let start : b.0.after.db ≡ w.db = elim (branch-ok b.0.runs) [
      | inl (_, run) ↦ (new_id-ok _ run).1
      | inr (_, run) ↦ ap (λ v. v.db) (pure-ok run).1
    ] in
    let done = create-ok (named c b.0.result) d b.0.after w' b.1 in
    (
      b.0.result,
      done.0,
      done.1,
      ap (live_ceiling_of c.payer_id) (sym start) ∙ done.2,
      done.3 ∙ ap (with_ceiling (named c b.0.result)) start,
    )

-- A ceiling issued to a user for an amount: the user had no live one, and now has it active; the amount
-- went from the main account into the lien.
pub Issued : Ident → ℤ → CeilingToken → Db → Db → Type 0
Issued u x c before after =
    (c.payer_id ≡ u)
    × (c.ceiling_amount ≡ x)
    × (pos 0 <ℤ x)
    × (live_ceiling_of u before ≡ none)
    × (active_ceiling_of u after ≡ some c)

head_found :
    (d : CeilingToken) (ds : List CeilingToken)
    → find (λ e. (e.payer_id == d.payer_id) && is_active e.status) (issued d ∷ ds) ≡ some (issued d)
head_found d ds = rw (==_refl d.payer_id) refl

-- A user with an account of each kind and enough money, who was issued a ceiling for the amount.
pub Funded : Ident → ℤ → CeilingToken → Db → Db → Type 0
Funded u x c before after =
    (m : Account) × (l : Account) × (account_of u main before ≡ some m)
    × (account_of u lien_holding before ≡ some l)
    × (x ≤ℤ m.balance)
    × Issued u x c before after
    × Moved m.id l.id x before.accounts after.accounts

module _ (s : Service) (u : Ident) (x : ℤ) (w w' : World) (c : CeilingToken) where
  lien_for-Issued :
      (m l : Ident) (d : CeilingToken)
      → d.payer_id ≡ u
      → d.ceiling_amount ≡ x
      → Runs (lien_for s u x m l d) w c w'
      → Issued u x c w.db w'.db × Moved m l x w.db.accounts w'.db.accounts
  unfolding lien_for Issued active_ceiling_of live_ceiling_of
  lien_for-Issued m l d hu hx h =
      let k = bind-ok _ h in
      let inserted = issue-ok _ d _ _ _ k.0.runs in
      let n = bind-ok _ k.1 in
      let txn = new_id-ok _ n.0.runs in
      let o = bind-ok _ n.1 in
      let moved = move-Moved _ _ _ _ _ _ _ o.0.runs in
      let end = pure-ok o.1 in
      let row = end.0 ∙ inserted.1 in
      let listed =
        ap (λ v. v.db.ceilings) end.1
        ∙ Keeps-ok (move-Keeps _ _ _ _) o.0.runs
        ∙ ap ceilings_of (txn.1 ∙ inserted.4) in
      (
        (
          ap (λ d. d.payer_id) row ∙ hu,
          ap (λ d. d.ceiling_amount) row ∙ hx,
          subst (λ y. pos 0 <ℤ y) hx inserted.2,
          ap (λ v. live_ceiling_of v w.db) (sym hu) ∙ inserted.3,
          ap (λ cs. find (λ e. (e.payer_id == u) && is_active e.status) cs) listed
              ∙ ap
                  (λ v.
                    find (λ e. (e.payer_id == v) && is_active e.status)
                      (issued (named d inserted.0) ∷ w.db.ceilings))
                  (sym hu)
              ∙ head_found (named d inserted.0) w.db.ceilings
              ∙ ap some (sym row),
        ),
        Moved-cast m m l l x _ _ _ _ refl refl (ap accounts_of (txn.1 ∙ inserted.4))
            (sym (ap (λ v. v.db.accounts) end.1)) moved,
      )

  -- The same results from an equal database.
  from_equal :
      (m l : Ident) (v : World)
      → v.db ≡ w.db
      → Issued u x c v.db w'.db × Moved m l x v.db.accounts w'.db.accounts
      → Issued u x c w.db w'.db × Moved m l x w.db.accounts w'.db.accounts
  from_equal m l v e h =
      subst (λ db. Issued u x c db w'.db × Moved m l x db.accounts w'.db.accounts) e h

module _ (s : Service) (u : Ident) (x ttl : ℤ) (w w' : World) (c : CeilingToken) where
  issue_and_lien-Issued :
      (key : Bytes) (m l : Ident)
      → Runs (issue_and_lien s u x ttl key m l) w c w'
      → Issued u x c w.db w'.db × Moved m l x w.db.accounts w'.db.accounts
  unfolding issue_and_lien get_active_bank_signing_key
  issue_and_lien-Issued key m l h =
      let b = bind-ok _ h in
      let bank = one-ok _ b.0.runs in
      let d = bind-ok _ b.1 in
      let time = now-ok _ d.0.runs in
      let e = bind-ok _ d.1 in
      let named = new_id-ok _ e.0.runs in
      let f = bind-ok _ e.1 in
      elim (option-ok f.0.runs) [
        | inl (_, run) ↦ fail-ok _ run
        | inr (sig, _, run) ↦
            from_equal s u x w w' c m l f.0.after
              (ap (λ v. v.db) (pure-ok run).1 ∙ named.1 ∙ time.1 ∙ ap (λ v. v.db) bank.1)
              (lien_for-Issued s u x f.0.after w' c m l _ refl refl f.1)
      ]

  abbrev accounts_part : Bytes → M CeilingToken
  accounts_part pubkey = do
    main_account ← get_account_id u main
    lien ← get_account_id u lien_holding
    balance ← get_account_balance u main
    fail_if (ltb_ℤ balance x) insufficient_funds
    issue_and_lien s u x ttl pubkey main_account lien

  accounts_part-Funded :
      (key : Bytes) (v : World) → v ≡ w → Runs (accounts_part key) v c w' → Funded u x c w.db w'.db
  unfolding Funded
  accounts_part-Funded key v e h =
      let b = bind-ok _ (subst (λ y. Runs (accounts_part key) y c w') e h) in
      let m = get_account_id-ok _ _ b.0.runs in
      let d = bind-ok _ b.1 in
      let l = get_account_id-ok _ _ d.0.runs in
      let f = bind-ok _ d.1 in
      let again = get_account_balance-ok _ _ f.0.runs in
      let k = bind-ok _ f.1 in
      let enough = fail_if-ok _ k.0.runs in
      let second = l.3 ∙ m.3 in
      let last = enough.1 ∙ again.3 ∙ second in
      let row = some-injective _ _ (sym again.1 ∙ ap (λ y. account_of u main y.db) second ∙ m.1) in
      let done = issue_and_lien-Issued key m.0.id l.0.id (
        subst (λ y. Runs (issue_and_lien s u x ttl key m.0.id l.0.id) y c w') last
          (subst (λ id. Runs (issue_and_lien s u x ttl key m.0.id id) k.0.after c w') l.2
            (subst (λ id. Runs (issue_and_lien s u x ttl key id d.0.result) k.0.after c w') m.2
              k.1))) in
      (
        m.0,
        l.0,
        m.1,
        ap (λ y. account_of u lien_holding y.db) (sym m.3) ∙ l.1,
        ltb_ℤ→le m.0.balance x
            (ap (λ b. ltb_ℤ b x) (sym (again.2 ∙ ap (λ a. a.balance) row)) ∙ enough.0),
        done.0,
        done.1,
      )

  -- Funding inside the transaction takes an account of each kind, and enough money.
  fund_in_tx-Funded : Runs (fund_offline_in_tx s u x ttl) w c w' → Funded u x c w.db w'.db
  unfolding fund_offline_in_tx get_user_payer_pubkey Funded
  fund_in_tx-Funded h =
      let b = bind-ok _ h in
      let earlier = read-ok _ b.0.runs in
      let d = bind-ok _ b.1 in
      let none_active = fail_if-ok _ d.0.runs in
      let e = bind-ok _ d.1 in
      let key = read-ok _ e.0.runs in
      let f = bind-ok _ e.1 in
      let has_key = fail_if-ok _ f.0.runs in
      let start = has_key.1 ∙ key.1 ∙ none_active.1 ∙ earlier.1 in
      accounts_part-Funded e.0.result f.0.after start f.1

clamped-ok :
    (s : Service) (u : Ident) (x a : ℤ) (w w' : World)
    → Runs (clamped s u x) w a w'
    → (allowed : ℤ) × (s.clamp u x ≡ some allowed)
      × (pos 0 <ℤ allowed)
      × (a ≡ (if ltb_ℤ allowed x then allowed else x))
      × (w' ≡ w)
unfolding clamped
clamped-ok s u x a w w' h = elim (option-ok h) [
  | inl (_, run) ↦ fail-ok _ run
  | inr (allowed, e, run) ↦ elim (branch-ok run) [
    | inl (_, failed) ↦ fail-ok _ failed
    | inr (positive, done) ↦
        (allowed, e, leb_ℤ→lt allowed (pos 0) positive, (pure-ok done).0, (pure-ok done).1)
  ]
]

-- A call of `FundOffline` that succeeds was for a positive time and a user with no ceiling that is active
-- or in recovery, and funded the smaller of the amount and what the fraud gate allows: the user's main
-- account, which held as much, lost exactly that to the user's lien, and the user has an active ceiling
-- of that amount.
pub fund_offline-Funded :
    (s : Service) (u : Ident) (x ttl : ℤ) (w w' : World) (c : CeilingToken)
    → Runs (fund_offline s u x ttl) w c w'
    → (allowed : ℤ) × (s.clamp u x ≡ some allowed)
      × (pos 0 <ℤ allowed)
      × (pos 0 <ℤ ttl)
      × Funded u (if ltb_ℤ allowed x then allowed else x) c w.db w'.db
unfolding fund_offline admit register
fund_offline-Funded s u x ttl w w' c h =
    let b = bind-ok _ h in
    let d = bind-ok _ b.0.runs in
    let amount = fail_if-ok _ d.0.runs in
    let e = bind-ok _ d.1 in
    let time = fail_if-ok _ e.0.runs in
    let gate = clamped-ok s u x b.0.result _ _ e.1 in
    let f = bind-ok _ b.1 in
    let k = bind-ok _ f.1 in
    let kept = fail_if-ok _ k.0.runs in
    let end = pure-ok k.1 in
    let start = gate.4 ∙ time.1 ∙ amount.1 in
    let run =
      subst (λ v. Runs (fund_offline_in_tx s u b.0.result ttl) v f.0.result f.0.after) start
        (tx-ok f.0.runs) in
    let funded = fund_in_tx-Funded s u b.0.result ttl w f.0.after f.0.result run in
    (
      gate.0,
      gate.1,
      gate.2,
      leb_ℤ→lt ttl (pos 0) time.0,
      subst (λ y. Funded u y c w.db w'.db) gate.3
          (subst (λ y. Funded u b.0.result y w.db w'.db) (sym end.0)
            (subst (λ db. Funded u b.0.result f.0.result w.db db)
              (ap (λ v. v.db) (sym (end.1 ∙ kept.1))) funded)),
    )
