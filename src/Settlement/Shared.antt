-- ===== src/Settlement/Shared.antt =====
-- `FinalizeForPayer` (settlement/service.go) shares the ceiling out as Waterfall describes it.
use mathlib.Core.Option.{some-injective}
use offline_pay.Base.{
  ◌≡◌, sym, ap, ◌∙◌, inl, inr, Bool, some, List, [], ◌∷◌, arith, All, map, find, select, ◌==◌,
  subst, Bool-cases,
}
use offline_pay.Base.Int.{ℤ, pos, ◌+ℤ◌, ◌-ℤ◌, ◌≤ℤ◌}
use offline_pay.Domain.Tokens.{Ident, Time, CeilingToken}
use offline_pay.Store.Rows.{Db, Payment}
use offline_pay.Store.Monad.{World}
use offline_pay.Store.Payments.{is_pending_of, sort_by_sequence, list_pending_for_payer}
use offline_pay.Store.Payments.Order.{sort_by_sequence-Sorted, sort-Sorted, sort-All, select-All}
use offline_pay.Store.Runs.{Runs, bind-ok, pure-ok, read-ok, tx-ok}
use offline_pay.Store.Runs.Calls.{get_account_id-ok, get_ceiling_token-ok}
use offline_pay.Settlement.Types.{Service, SettlementResult}
use offline_pay.Settlement.Finalize.{
  Allotment, settled_result, settle_one, settle_all, finalize_pending, finalize_sorted,
  finalize_body, finalize_for_payer,
}
use offline_pay.Settlement.Waterfall.{
  capped, shares, amounts, allot-share, allot-remaining, add_NonNegative, minus_capped_zero, total,
  total-shares_all,
}

abbrev NonNegative : Payment → Type 0
NonNegative p = pos 0 ≤ℤ p.amount

-- What the results say each payment got, and which payments they are about.
abbrev pub settled_amounts : List SettlementResult → List ℤ
settled_amounts rs = map (λ r. r.settled_amount) rs

abbrev pub settled_ids : List SettlementResult → List Ident
settled_ids rs = map (λ r. r.transaction_id) rs

abbrev pub payment_ids : List Payment → List Ident
payment_ids ps = map (λ p. p.id) ps

module _ (s : Service) (payer lien : Ident) (t : Time) where
  pub settle_one-result :
      (ceiling : Ident) (txn : Payment) (a : Allotment) (w w' : World) (r : SettlementResult)
      → Runs (settle_one s payer lien ceiling t txn a) w r w'
      → r ≡ settled_result txn a
  unfolding settle_one
  settle_one-result ceiling txn a w w' r h =
      let b = bind-ok _ (bind-ok _ (bind-ok _ (bind-ok _ h).1).1).1 in
      (pure-ok (bind-ok _ (bind-ok _ (bind-ok _ (bind-ok _ b.1).1).1).1).1).0

  -- The loop, after payments that add up to `before`.
  settle_all-shares :
      (ceiling : Ident) (cap before : ℤ) (txns : List Payment) (w w' : World)
      (rs : ℤ × List SettlementResult)
      → pos 0 ≤ℤ cap
      → pos 0 ≤ℤ before
      → All NonNegative txns
      → Runs (settle_all s payer lien ceiling t (cap -ℤ capped cap before) txns) w rs w'
      → (settled_amounts rs.1 ≡ shares cap before (amounts txns))
        × (settled_ids rs.1 ≡ payment_ids txns)
  unfolding settle_all shares
  settle_all-shares ceiling cap before [] w w' rs hc hb hn h =
      let end = pure-ok h in (ap (λ p. settled_amounts p.1) end.0, ap (λ p. settled_ids p.1) end.0)
  settle_all-shares ceiling cap before (txn ∷ txns) w w' rs hc hb hn h =
      let b = bind-ok _ h in
      let c = bind-ok _ b.1 in
      let end = pure-ok c.1 in
      let first = settle_one-result _ _ _ _ _ _ b.0.runs in
      let rest =
        settle_all-shares ceiling cap (before +ℤ txn.amount) txns _ _ _ hc
          (add_NonNegative before txn.amount hb hn.0) hn.1
          (subst
            (λ remaining.
              Runs (settle_all s payer lien ceiling t remaining txns) b.0.after c.0.result
                c.0.after)
            (allot-remaining cap before txn.amount hb hn.0 hc) c.0.runs) in
      (
        ap (λ p. settled_amounts p.1) end.0
            ∙ ap (λ x. x.settled_amount ∷ settled_amounts c.0.result.1) first
            ∙ ap (λ x. x ∷ settled_amounts c.0.result.1)
                (allot-share cap before txn.amount hb hn.0 hc)
            ∙ ap (λ xs. (capped cap (before +ℤ txn.amount) -ℤ capped cap before) ∷ xs) rest.0,
        ap (λ p. settled_ids p.1) end.0
            ∙ ap (λ x. x.transaction_id ∷ settled_ids c.0.result.1) first
            ∙ ap (λ xs. txn.id ∷ xs) rest.1,
      )

-- The payer's pending payments in sequence order, as the query gives them.
abbrev pub pending_of : Ident → Db → List Payment
pending_of payer db = sort_by_sequence (select (is_pending_of payer) db.payments)

abbrev CeilingNonNegative : CeilingToken → Type 0
CeilingNonNegative c = pos 0 ≤ℤ c.ceiling_amount

find-All :
    (P : CeilingToken → Type 0) (test : CeilingToken → Bool) (cs : List CeilingToken)
    (c : CeilingToken)
    → All P cs
    → find test cs ≡ some c
    → P c
find-All P test [] c h e = grind arith
find-All P test (d ∷ ds) c h e = elim (Bool-cases (test d)) [
  | inl yes' ↦ subst P (some-injective _ _ (rw yes' at e)) h.0
  | inr no' ↦ find-All P test ds c h.1 (rw no' at e)
]

-- How the payments of a run share a ceiling, by their results.
pub SharedOut : CeilingToken → List Payment → List SettlementResult → Type 0
SharedOut c txns rs =
    (settled_amounts rs ≡ shares c.ceiling_amount (pos 0) (amounts txns))
    × (settled_ids rs ≡ payment_ids txns)

-- The results of a run over payments in sequence order: none for none, and otherwise the shares of
-- the first payment's ceiling.
pub FinalizedAs : Db → List Payment → List SettlementResult → Type 0
FinalizedAs db [] rs = rs ≡ []
FinalizedAs db (first ∷ rest) rs =
    (c : CeilingToken) × (find (λ d. d.id == first.ceiling_id) db.ceilings ≡ some c)
    × SharedOut c (first ∷ rest) rs

module _ (s : Service) (payer : Ident) (w w' : World) (rs : List SettlementResult) where
  finalize_pending-shares :
      (first : Payment) (txns : List Payment)
      → All CeilingNonNegative w.db.ceilings
      → All NonNegative txns
      → Runs (finalize_pending s payer first txns) w rs w'
      → (c : CeilingToken) × (find (λ d. d.id == first.ceiling_id) w.db.ceilings ≡ some c)
        × SharedOut c txns rs
  unfolding finalize_pending SharedOut
  finalize_pending-shares first txns hc hn h =
      let b = bind-ok _ h in
      let lien = get_account_id-ok _ _ b.0.runs in
      let c = bind-ok _ b.1 in
      let read = get_ceiling_token-ok _ c.0.runs in
      let found =
        ap (λ v. find (λ d. d.id == first.ceiling_id) v.db.ceilings) (sym lien.3) ∙ read.0 in
      let d = bind-ok _ c.1 in
      let e = bind-ok _ d.1 in
      let end = pure-ok (bind-ok _ e.1).1 in
      let cap = c.0.result.ceiling_amount in
      let positive = find-All CeilingNonNegative _ _ _ hc found in
      let shared =
        settle_all-shares s payer b.0.result d.0.result c.0.result.id cap (pos 0) txns _ _ _
          positive (omega arith) hn
          (subst
            (λ remaining.
              Runs (settle_all s payer b.0.result c.0.result.id d.0.result remaining txns) d.0.after
                e.0.result e.0.after)
            (sym (minus_capped_zero cap cap positive)) e.0.runs) in
      (c.0.result, found, (ap settled_amounts end.0 ∙ shared.0, ap settled_ids end.0 ∙ shared.1))

  -- Where no ceiling and no payment has a negative amount, a run that finalizes a payer's claims gives
  -- the payer's pending payments, in sequence order, the shares of the first payment's ceiling, and
  -- reports each payment once.
  pub finalize_for_payer-shares :
      All CeilingNonNegative w.db.ceilings
      → All NonNegative w.db.payments
      → Runs (finalize_for_payer s payer) w rs w'
      → FinalizedAs w.db (pending_of payer w.db) rs
  unfolding FinalizedAs finalize_for_payer finalize_body finalize_sorted list_pending_for_payer
  finalize_for_payer-shares hc hn h =
      let b = bind-ok _ (tx-ok h) in
      let listed = read-ok _ b.0.runs in
      let pending = pending_of payer w.db in
      let again =
        ap sort_by_sequence listed.0
        ∙ sort-Sorted pending
            (sort_by_sequence-Sorted (select (is_pending_of payer) w.db.payments)).0 in
      by_list pending b.0.after listed.1 (sort-All NonNegative _ (select-All NonNegative _ _ hn))
        (subst (λ txns. Runs (finalize_sorted s payer txns) b.0.after rs w') again b.1)
    where
      by_list :
          (txns : List Payment) (v : World)
          → v ≡ w
          → All NonNegative txns
          → Runs (finalize_sorted s payer txns) v rs w'
          → FinalizedAs w.db txns rs
      by_list [] v e hn run = (pure-ok run).0
      by_list (first ∷ rest) v e hn run =
          finalize_pending-shares first (first ∷ rest) hc hn
            (subst (λ x. Runs (finalize_pending s payer first (first ∷ rest)) x rs w') e run)

-- What a run over payments in sequence order settles in all: nothing for none, and otherwise the smaller
-- of the first payment's ceiling, as it is on record, and the sum of the payments.
pub SettledInAll : Db → List Payment → List SettlementResult → Type 0
SettledInAll db [] rs = rs ≡ []
SettledInAll db (first ∷ rest) rs =
    (c : CeilingToken) × (find (λ d. d.id == first.ceiling_id) db.ceilings ≡ some c)
    × (total (settled_amounts rs) ≡ capped c.ceiling_amount (total (amounts (first ∷ rest))))

FinalizedAs-total :
    (db : Db) (txns : List Payment) (rs : List SettlementResult)
    → All CeilingNonNegative db.ceilings
    → FinalizedAs db txns rs
    → SettledInAll db txns rs
unfolding FinalizedAs SharedOut SettledInAll
FinalizedAs-total db [] rs hc h = h
FinalizedAs-total db (first ∷ rest) rs hc h = (
  h.0,
  h.1,
  ap total h.2.0
      ∙ total-shares_all h.0.ceiling_amount (amounts (first ∷ rest))
          (find-All CeilingNonNegative (λ d. d.id == first.ceiling_id) db.ceilings h.0 hc h.1),
)

-- Where no ceiling and no payment has a negative amount, a run that finalizes a payer's claims settles,
-- over all the payer's pending payments, the smaller of their sum and the amount of the ceiling on record
-- that the first of them, in sequence order, was drawn on; and nothing where none is pending.
pub finalize_for_payer-total :
    (s : Service) (payer : Ident) (w w' : World) (rs : List SettlementResult)
    → All CeilingNonNegative w.db.ceilings
    → All NonNegative w.db.payments
    → Runs (finalize_for_payer s payer) w rs w'
    → SettledInAll w.db (pending_of payer w.db) rs
finalize_for_payer-total s payer w w' rs hc hn h =
    FinalizedAs-total w.db (pending_of payer w.db) rs hc
      (finalize_for_payer-shares s payer w w' rs hc hn h)
