-- ===== src/Wallet/Balances.antt =====
-- wallet/service.go: `GetBalances`, and `GetCurrentCeiling` with the query below it.
use offline_pay.Base.{Bool, Option, none, some, List, [], ◌∷◌, ◌&&◌, ◌||◌, ltb, ◌==◌, if◌then◌else◌}
use offline_pay.Base.Int.{ℤ, ◌-ℤ◌}
use offline_pay.Domain.Status.{CeilingStatus, is_active, is_recovery_pending}
use offline_pay.Domain.Tokens.{Ident, Time, CeilingToken}
use offline_pay.Store.Rows.{Db, main, lien_holding, receiving_pending}
use offline_pay.Store.Monad.{M, pure, read, ◌>>=◌}
use offline_pay.Store.Accounts.{get_account_balance}
use offline_pay.Store.Ceilings.{sum_settled}

pub record Balances : Type 0 where
  pub main : ℤ
  pub lien_holding : ℤ
  pub receiving_pending : ℤ

unfoldable pub get_balances : Ident → M Balances
get_balances user = do
  m ← get_account_balance user main
  l ← get_account_balance user lien_holding
  p ← get_account_balance user receiving_pending
  pure (record { main = m; lien_holding = l; receiving_pending = p })

pub record CurrentCeiling : Type 0 where
  pub id : Ident
  pub status : CeilingStatus
  pub ceiling_kobo : ℤ
  pub settled_kobo : ℤ
  pub remaining_kobo : ℤ
  pub issued_at : Time
  pub expires_at : Time
  pub release_after : Option Time

abbrev is_current : Ident → CeilingToken → Bool
is_current user c = (c.payer_id == user) && (is_active c.status || is_recovery_pending c.status)

-- `ORDER BY issued_at DESC LIMIT 1`
latest : Ident → List CeilingToken → Option CeilingToken
latest user [] = none
latest user (c ∷ cs) = newer (latest user cs)
  where
    newer : Option CeilingToken → Option CeilingToken
    newer none = if is_current user c then some c else none
    newer (some d) = if is_current user c && ltb d.issued_at c.issued_at then some c else some d

abbrev current_row : Db → CeilingToken → CurrentCeiling
current_row db c = record {
  id = c.id;
  status = c.status;
  ceiling_kobo = c.ceiling_amount;
  settled_kobo = sum_settled c.id db.payments;
  remaining_kobo = c.ceiling_amount -ℤ sum_settled c.id db.payments;
  issued_at = c.issued_at;
  expires_at = c.expires_at;
  release_after = c.release_after;
}

unfoldable pub current_ceiling : Ident → Db → Option CurrentCeiling
unfolding latest
current_ceiling user db = elim (latest user db.ceilings) [
  | none ↦ none
  | some c ↦ some (current_row db c)
]

unfoldable pub get_current_ceiling : Ident → M (Option CurrentCeiling)
get_current_ceiling user = read (current_ceiling user)
