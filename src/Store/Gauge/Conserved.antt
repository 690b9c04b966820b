-- ===== src/Store/Gauge/Conserved.antt =====
-- What every operation of the services conserves: the money in all accounts, every account's distance
-- from its ledger, and the imbalance of every transaction's entries.
use offline_pay.Base.{◌≡◌}
use offline_pay.Domain.Tokens.{Ident}
use offline_pay.Store.Rows.{Db}
use offline_pay.Store.Monad.{World, M, world_of, imbalance}
use offline_pay.Store.Gauge.{Gauge, Level, Steady}
use offline_pay.Store.Gauge.Instances.{
  money, money_gauge, money_gauge-Level, drift, drift_gauge, drift_gauge-Level, imbalance_gauge,
  imbalance_gauge-Level,
}

pub Conserved : Db → Db → Type 0
Conserved before after =
    (money after.accounts ≡ money before.accounts)
    × ((a : Ident) → drift a after.accounts after.ledger ≡ drift a before.accounts before.ledger)
    × ((t : Ident) → imbalance t after.ledger ≡ imbalance t before.ledger)

pub conserves :
    {A : Type 0} (m : M A)
    → ((g : Gauge) → Level g → Steady g m)
    → (w : World) → Conserved w.db (world_of (m w)).db
unfolding Conserved
conserves m h w = (
  (h money_gauge money_gauge-Level).kept w,
  λ a. (h (drift_gauge a) (drift_gauge-Level a)).kept w,
  λ t. (h (imbalance_gauge t) (imbalance_gauge-Level t)).kept w,
)
