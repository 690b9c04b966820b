-- ===== src/Settlement/Totals.antt =====
-- What `SubmitClaim` (settlement/service.go) reports about a batch: one result for each item, and
-- totals that are those of the results.
use offline_pay.Base.{
  ℕ, suc, ◌≡◌, refl, sym, ap, ◌∙◌, List, [], ◌∷◌, arith, length, if◌then◌else◌, subst,
}
use offline_pay.Base.Int.{ℤ, pos, ◌+ℤ◌, wrap_int64, wrap-+ℤ}
use offline_pay.Domain.Status.{PaymentStatus, rejected, same_status}
use offline_pay.Domain.Tokens.{Ident, Time}
use offline_pay.Store.Monad.{World}
use offline_pay.Store.Runs.{Runs, bind-ok, pure-ok}
use offline_pay.Settlement.Types.{Service, ClaimItem, SettlementResult, SettlementBatch}
use offline_pay.Settlement.Submit.{Progress, tally, submit_all, submit_claim}

-- How many results are rejections, and what the pending ones have settled.
pub count_rejected : List SettlementResult → ℕ
count_rejected [] = 0
count_rejected (r ∷ rs) =
    let rest = count_rejected rs in if same_status r.status rejected then suc rest else rest

pub settled_total : List SettlementResult → ℤ
settled_total [] = pos 0
settled_total (r ∷ rs) =
    let rest = settled_total rs in
    if same_status r.status PaymentStatus.pending then r.settled_amount +ℤ rest else rest

tally-results :
    (item : ClaimItem) (r : SettlementResult) (rest : Progress)
    → (tally item r rest).results ≡ r ∷ rest.results
unfolding tally
tally-results item r rest = ground arith

tally-rejected :
    (item : ClaimItem) (r : SettlementResult) (rest : Progress)
    → rest.total_rejected ≡ count_rejected rest.results
    → (tally item r rest).total_rejected ≡ count_rejected (r ∷ rest.results)
unfolding tally count_rejected
tally-rejected item r rest h = ground arith

tally-total :
    (item : ClaimItem) (r : SettlementResult) (rest : Progress)
    → rest.total_amount ≡ wrap_int64 (settled_total rest.results)
    → (tally item r rest).total_amount ≡ wrap_int64 (settled_total (r ∷ rest.results))
unfolding tally settled_total
tally-total item r rest h =
    let wrapped = wrap-+ℤ r.settled_amount (settled_total rest.results) in ground arith

-- The progress over a batch, and its results.
pub record Tallied (items : List ClaimItem) (done : Progress) : Type 0 where
  pub one_each : length done.results ≡ length items
  pub rejections : done.total_rejected ≡ count_rejected done.results
  pub amount : done.total_amount ≡ wrap_int64 (settled_total done.results)

tally-Tallied :
    (item : ClaimItem) (items : List ClaimItem) (r : SettlementResult) (rest : Progress)
    → Tallied items rest
    → Tallied (item ∷ items) (tally item r rest)
tally-Tallied item items r rest h = record {
  one_each = ap length (tally-results item r rest) ∙ ap suc h.one_each;
  rejections =
      tally-rejected item r rest h.rejections ∙ ap count_rejected (sym (tally-results item r rest));
  amount =
      tally-total item r rest h.amount
      ∙ ap (λ xs. wrap_int64 (settled_total xs)) (sym (tally-results item r rest));
}

module _ (s : Service) (u : Ident) where
  submit_all-Tallied :
      (batch : Ident) (items : List ClaimItem) (t : Time) (w w' : World) (done : Progress)
      → Runs (submit_all s batch u items t) w done w'
      → Tallied items done
  unfolding submit_all count_rejected settled_total wrap_int64
  submit_all-Tallied batch [] t w w' done h =
      let end = sym (pure-ok h).0 in
      subst (λ d. Tallied [] d) end (record { one_each = refl; rejections = refl; amount = refl })
  submit_all-Tallied batch (item ∷ items) t w w' done h =
      let b = bind-ok _ h in
      let c = bind-ok _ b.1 in
      let rest = submit_all-Tallied batch items t b.0.after c.0.after c.0.result c.0.runs in
      subst (λ d. Tallied (item ∷ items) d) (sym (pure-ok c.1).0)
        (tally-Tallied item items b.0.result c.0.result rest)

  -- A batch that is processed has one result for each item, in a batch that reports how many items it
  -- had, how many results are rejections, and what the pending results have settled, in int64 arithmetic.
  pub submit_claim-totals :
      (items : List ClaimItem) (country : Ident) (w w' : World) (batch : SettlementBatch)
      (rs : List SettlementResult)
      → Runs (submit_claim s u items country) w (batch, rs) w'
      → (length rs ≡ length items)
        × (batch.total_submitted ≡ length items)
        × (batch.total_rejected ≡ count_rejected rs)
        × (batch.total_amount ≡ wrap_int64 (settled_total rs))
        × (batch.receiver_id ≡ u)
  unfolding submit_claim
  submit_claim-totals items country w w' batch rs h =
      let b = bind-ok _ (bind-ok _ (bind-ok _ h).1).1 in
      let d = bind-ok _ b.1 in
      let tallied = submit_all-Tallied _ items _ _ _ d.0.result d.0.runs in
      let end = (pure-ok (bind-ok _ (bind-ok _ (bind-ok _ d.1).1).1).1).0 in
      let listed = ap (λ p. p.1) end in
      (
        ap length listed ∙ tallied.one_each,
        ap (λ p. p.0.total_submitted) end,
        ap (λ p. p.0.total_rejected) end ∙ tallied.rejections ∙ ap count_rejected (sym listed),
        ap (λ p. p.0.total_amount) end
            ∙ tallied.amount
            ∙ ap (λ xs. wrap_int64 (settled_total xs)) (sym listed),
        ap (λ p. p.0.receiver_id) end,
      )
