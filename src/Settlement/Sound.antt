-- ===== src/Settlement/Sound.antt =====
-- When `submitOne` (settlement/service.go) changes the database: only where every check passed, and
-- then as step 6 does.
use offline_pay.Base.{
  ◌≡◌, sym, ap, ◌∙◌, inl, inr, ◌⊎◌, false, Option, none, some, arith, ◌==◌, find, ltb, subst,
}
use offline_pay.Base.Int.{◌<ℤ◌}
use offline_pay.Domain.Status.{PaymentStatus, rejected}
use offline_pay.Domain.Tokens.{Ident, Time, CeilingToken, add_time}
use offline_pay.Store.Rows.{Db, Reason}
use offline_pay.Store.Monad.{World, M, ◌>>=◌}
use offline_pay.Store.Keeps.{Keeps}
use offline_pay.Store.Payments.{payment_by_sequence}
use offline_pay.Store.Runs.{Runs, bind-ok, pure-ok, read-ok, Keeps-ok, option-ok}
use offline_pay.Settlement.Types.{Service, ClaimItem, SettlementResult}
use offline_pay.Settlement.Claim.{live_status}
use offline_pay.Settlement.Accept.{accept}
use offline_pay.Settlement.Submit.{
  unless_rejected, accept_new, dedupe_or_accept, submit_in_window, submit_bound, submit_signed,
  submit_one,
}
use offline_pay.Settlement.Checked.{
  check_signatures-Keeps, check_binding-Keeps, check_window-Keeps, check_live-Keeps,
}
use offline_pay.Settlement.Checks.{
  Parties, check_parties-Parties, Signed, check_signatures-Signed, Answers, check_binding-Answers,
  check_window-ok, check_live-ok,
}
use offline_pay.Settlement.Recorded.{accept-recorded}

-- A claim that may be accepted at a time, over a database.
pub record Acceptable (s : Service) (u : Ident) (item : ClaimItem) (t : Time) (db : Db)
    : Type 0 where
  pub parties : Parties u item
  pub signed : Signed s item db
  pub answers : Answers s item t
  pub in_sequence : item.ceiling.sequence_start <ℤ item.payment.sequence_number
  pub in_window : ltb (add_time item.ceiling.expires_at s.clock_grace) t ≡ false
  pub unseen : payment_by_sequence item.payment.payer_id item.payment.sequence_number db ≡ none
  pub live : CeilingToken
  pub live_row : find (λ d. d.id == item.ceiling.id) db.ceilings ≡ some live
  pub live_open : live_status t live ≡ none

abbrev whole : Db → Db
whole db = db

unless-ok :
    (item : ClaimItem) (verdict : Option Reason) (k : M SettlementResult) (w w' : World)
    (r : SettlementResult)
    → Runs (unless_rejected item verdict k) w r w'
    → (w'.db ≡ w.db) ⊎ ((verdict ≡ none) × Runs k w r w')
unfolding unless_rejected
unless-ok item verdict k w w' r h = elim (option-ok h) [
  | inl (passed, run) ↦ inr (passed, run)
  | inr (_, _, run) ↦ inl (ap (λ v. v.db) (pure-ok run).1)
]

-- A check, and the rest of the function behind it.
guarded :
    (item : ClaimItem) (check : M (Option Reason)) (k : M SettlementResult) (w w' : World)
    (r : SettlementResult)
    → Keeps whole check
    → Runs (check >>= λ verdict. unless_rejected item verdict k) w r w'
    → (w'.db ≡ w.db) ⊎ ((x : World) × Runs check w none x × Runs k x r w')
guarded item check k w w' r h run =
    let b = bind-ok _ run in
    elim (unless-ok item _ k _ w' r b.1) [
      | inl same ↦ inl (same ∙ Keeps-ok h b.0.runs)
      | inr (passed, rest) ↦
          inr (b.0.after, subst (λ v. Runs check w v b.0.after) passed b.0.runs, rest)
    ]

module _ (s : Service) (batch u : Ident) (item : ClaimItem) (t : Time) (w w' : World)
    (r : SettlementResult) where
  -- How a call ended: with the database as it was, or, given some facts, by accepting the claim.
  abbrev Ended : Type 0 → Type 0
  Ended P = (w'.db ≡ w.db) ⊎ (P × Runs (accept s batch u item t) w r w')

  abbrev Live : Type 0
  Live =
      (c : CeilingToken) × (find (λ d. d.id == item.ceiling.id) w.db.ceilings ≡ some c)
      × (live_status t c ≡ none)

  abbrev Unseen : Type 0
  Unseen = payment_by_sequence item.payment.payer_id item.payment.sequence_number w.db ≡ none

  abbrev Window : Type 0
  Window =
      (item.ceiling.sequence_start <ℤ item.payment.sequence_number)
      × (ltb (add_time item.ceiling.expires_at s.clock_grace) t ≡ false)

  -- A run from an equal world.
  from : {m : M SettlementResult} (x : World) → x ≡ w → Runs m x r w' → Runs m w r w'
  from {m = m} x e run = subst (λ v. Runs m v r w') e run

  accept_new-ends : Runs (accept_new s batch u item t) w r w' → Ended Live
  unfolding accept_new
  accept_new-ends h = elim (guarded item _ _ w w' r (check_live-Keeps whole s item t) h) [
    | inl same ↦ inl same
    | inr (x, checked, rest) ↦
        let live = check_live-ok s item t w x checked in
        inr ((live.0, live.1, live.2), from x live.3 rest)
  ]

  dedupe_or_accept-ends : Runs (dedupe_or_accept s batch u item t) w r w' → Ended (Unseen × Live)
  unfolding dedupe_or_accept
  dedupe_or_accept-ends h =
      let b = bind-ok _ h in
      let found = read-ok _ b.0.runs in
      elim (option-ok b.1) [
        | inl (nothing, run) ↦ elim (accept_new-ends (from b.0.after found.1 run)) [
          | inl same ↦ inl same
          | inr (live, done) ↦ inr ((sym found.0 ∙ nothing, live), done)
        ]
        | inr (_, _, run) ↦ inl (ap (λ v. v.db) ((pure-ok run).1 ∙ found.1))
      ]

  submit_in_window-ends :
      Runs (submit_in_window s batch u item t) w r w' → Ended (Window × Unseen × Live)
  unfolding submit_in_window
  submit_in_window-ends h = elim (guarded item _ _ w w' r (check_window-Keeps whole s item t) h) [
    | inl same ↦ inl same
    | inr (x, checked, rest) ↦
        let window = check_window-ok s item t w x checked in
        elim (dedupe_or_accept-ends (from x window.2 rest)) [
          | inl same ↦ inl same
          | inr (facts, done) ↦ inr (((window.0, window.1), facts.0, facts.1), done)
        ]
  ]

  submit_bound-ends :
      Runs (submit_bound s batch u item t) w r w'
      → Ended (Answers s item t × Window × Unseen × Live)
  unfolding submit_bound
  submit_bound-ends h = elim (guarded item _ _ w w' r (check_binding-Keeps whole s item t) h) [
    | inl same ↦ inl same
    | inr (x, checked, rest) ↦
        let answers = check_binding-Answers s item t w x checked in
        elim (submit_in_window-ends (from x answers.1 rest)) [
          | inl same ↦ inl same
          | inr (facts, done) ↦ inr ((answers.0, facts.0, facts.1, facts.2), done)
        ]
  ]

  submit_signed-ends :
      Runs (submit_signed s batch u item t) w r w'
      → Ended (Signed s item w.db × Answers s item t × Window × Unseen × Live)
  unfolding submit_signed
  submit_signed-ends h = elim (guarded item _ _ w w' r (check_signatures-Keeps whole s item) h) [
    | inl same ↦ inl same
    | inr (x, checked, rest) ↦
        let signed = check_signatures-Signed s item w x checked in
        elim (submit_bound-ends (from x signed.1 rest)) [
          | inl same ↦ inl same
          | inr (facts, done) ↦ inr ((signed.0, facts.0, facts.1, facts.2, facts.3), done)
        ]
  ]

  -- A call of `submitOne` that succeeds leaves the database as it was, or the claim was acceptable and
  -- the call accepted it.
  pub submit_one-Acceptable :
      Runs (submit_one s batch u item t) w r w'
      → (w'.db ≡ w.db) ⊎ (Acceptable s u item t w.db × Runs (accept s batch u item t) w r w')
  unfolding submit_one
  submit_one-Acceptable h = elim (unless-ok item _ _ w w' r h) [
    | inl same ↦ inl same
    | inr (passed, run) ↦ elim (submit_signed-ends run) [
      | inl same ↦ inl same
      | inr (facts, done) ↦ inr (
        record {
          parties = check_parties-Parties u item passed;
          signed = facts.0;
          answers = facts.1;
          in_sequence = facts.2.0;
          in_window = facts.2.1;
          unseen = facts.3;
          live = facts.4.0;
          live_row = facts.4.1;
          live_open = facts.4.2;
        },
        done,
      )
    ]
  ]

  -- A call that rejects a claim leaves the database as it was.
  pub submit_one-rejected :
      r.status ≡ rejected → Runs (submit_one s batch u item t) w r w' → w'.db ≡ w.db
  submit_one-rejected e h = elim (submit_one-Acceptable h) [
    | inl same ↦ same
    | inr (_, done) ↦
        let recorded = accept-recorded s batch u item t w w' r done in
        not_rejected (sym e ∙ ap (λ x. x.status) recorded.1)
  ]
    where
      not_rejected : {P : Type 0} → rejected ≡ PaymentStatus.pending → P
      not_rejected e = grind arith
