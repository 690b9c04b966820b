-- ===== src/Settlement/Enqueued.antt =====
-- Finalize events (`enqueueFinalize` and `AutoSettleSweep` of settlement/service.go) move no money.
use offline_pay.Base.{refl, List, [], ◌∷◌}
use offline_pay.Domain.Tokens.{Ident}
use offline_pay.Store.Rows.{FinalizeReason}
use offline_pay.Store.Gauge.{Gauge, reading, Steady}
use offline_pay.Store.Keeps.{Keeps-bind, Keeps-pure, Keeps-fail_if, Keeps-new_id, Keeps-now}
use offline_pay.Store.Keeps.Writes.{Keeps-insert_outbox}
use offline_pay.Settlement.Types.{Service}
use offline_pay.Settlement.Enqueue.{enqueue_finalize, enqueue_all}

module _ (g : Gauge) (s : Service) where
  enqueue_finalize-Steady :
      (payer : Ident) (r : FinalizeReason) → Steady g (enqueue_finalize s payer r)
  unfolding enqueue_finalize
  enqueue_finalize-Steady payer r = Keeps-bind (reading g) (Keeps-fail_if (reading g) _ _) λ _.
      Keeps-bind (reading g) (Keeps-now (reading g) _) λ _.
        Keeps-bind (reading g) (Keeps-new_id (reading g) _)
          λ _. Keeps-insert_outbox (reading g) (λ _ _. refl) _

  pub enqueue_all-Steady :
      (r : FinalizeReason) (payers : List Ident) → Steady g (enqueue_all s r payers)
  unfolding enqueue_all
  enqueue_all-Steady r [] = Keeps-pure (reading g) _
  enqueue_all-Steady r (p ∷ ps) =
      Keeps-bind (reading g) (enqueue_finalize-Steady p r)
        λ _. Keeps-bind (reading g) (enqueue_all-Steady r ps) λ _. Keeps-pure (reading g) _
