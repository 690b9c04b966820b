-- ===== src/Store/Monad.antt =====
-- Repository calls: state and errors. A call returns a value, or an error, with the world that it
-- leaves. `tx` is `Repo.Tx` of pgrepo/repo.go: an error inside rolls the database back, and the
-- commit fails where the deferred trigger of migration 0006 finds an unbalanced posting. What is
-- outside the database (ids drawn, clock readings, fraud and detector signals) is not rolled back.
-- Wrapping an error with a text (`fmt.Errorf("...: %w", err)`) keeps the error.
use offline_pay.Base.{
  take, length, ◌-◌, ℕ, suc, Bool, true, false, Option, none, some, List, [], ◌∷◌, ◌&&◌, ◌==◌,
  if◌then◌else◌,
}
use offline_pay.Base.Int.{ℤ, pos, ◌+ℤ◌, ◌-ℤ◌, eqb_ℤ}
use offline_pay.Domain.Status.{Direction, debit, credit}
use offline_pay.Domain.Tokens.{Ident, Time}
use offline_pay.Store.Rows.{Db, LedgerEntry, RuleName}

pub data Error : Type 0 where
  -- errors of the database and of pgrepo
  no_rows check_violation unique_violation foreign_key_violation ledger_unbalanced : Error
  txn_id_required two_legs_required : Error
  -- errors of the wallet service
  amount_not_positive ttl_not_positive active_ceiling_exists no_active_ceiling : Error
  unsettled_claims insufficient_funds missing_payer_pubkey suspended recovery_race_lost : Error
  stale_candidate gate_failed signing_failed registration_failed : Error
  -- errors of the settlement service
  submitter_required empty_payer canonicalize_failed : Error
  -- errors of the transfer service
  sender_required bad_account_number bad_amount bad_reference receiver_not_found self_transfer
        tier_blocked :
      Error
  exceeds_single_limit exceeds_daily_limit fraud_blocked out_of_range : Error
  -- errors of the gossip service
  sealed_box_keys_missing : Error

pub data FraudSignal : Type 0 where
  double_spend ceiling_exhaustion geographic_anomaly sequence_anomaly : FraudSignal
  device_change velocity_breach signature_invalid : FraudSignal

-- What a service hands to the fraud recorder and the detector.
pub data Signal : Type 0 where
  fraud : FraudSignal → Ident → Ident → Signal
  observe_settled : Ident → Time → Signal
  observe_claim : Ident → Ident → Time → Signal
  -- the fraud_scores row of a blocked transfer, written through the pool, outside the transaction
  score_blocked : Ident → Option RuleName → List RuleName → ℤ → Signal
  -- a message published, by the dispatcher, with its id
  published : Ident → Signal

pub record World : Type 0 where
  pub db : Db
  pub ids_drawn : ℕ
  pub clock_reads : ℕ
  pub signals : List Signal

pub data Outcome (A : Type 0) : Type 0 where
  ok : A → World → Outcome A
  err : Error → World → Outcome A

abbrev pub M : Type 0 → Type 0
M A = World → Outcome A

abbrev pub Done : Type 0
Done = Unit {0}

-- The steps are shut, so that the rules for them apply to a do block as it is written.
module _ {A : Type 0} where
  unfoldable pub pure : A → M A
  pure a w = ok a w

  unfoldable pub fail : Error → M A
  fail e w = err e w

  -- The world that an outcome leaves.
  abbrev pub world_of : Outcome A → World
  world_of (ok _ w) = w
  world_of (err _ w) = w

  unfoldable pub read : (Db → A) → M A
  read f w = ok (f w.db) w

  abbrev pub row_or_error : Option A → M A
  row_or_error none w = err no_rows w
  row_or_error (some a) w = ok a w

  -- A query for one row.
  unfoldable pub one : (Db → Option A) → M A
  one f w = row_or_error (f w.db) w

  -- A step that looks at the database before it acts.
  unfoldable pub looking : (Db → M A) → M A
  looking f w = f w.db w

abbrev pub continue : {A B : Type 0} → (A → M B) → Outcome A → Outcome B
continue f (ok a w) = f a w
continue f (err e w) = err e w

infixl 5 ◌>>=◌ ◌>>◌
unfoldable pub ◌>>=◌ : {A B : Type 0} → M A → (A → M B) → M B
◌>>=◌ m f w = continue f (m w)

abbrev pub ◌>>◌ : {A B : Type 0} → M A → M B → M B
m >> k = m >>= λ _. k

-- `if failed { return err }`
unfoldable pub fail_if : Bool → Error → M Done
fail_if true e w = err e w
fail_if false e w = ok tt w

unfoldable pub when : Bool → M Done → M Done
unfolding pure
when true m = m
when false m = pure tt

-- `if test { ... } else { ... }` round steps
unfoldable pub branch : {A : Type 0} → Bool → M A → M A → M A
branch true m k = m
branch false m k = k

-- A switch on a value that may be missing.
unfoldable pub option : {A B : Type 0} → Option A → M B → (A → M B) → M B
option none m f = m
option (some a) m f = f a

-- `if errors.Is(err, pgx.ErrNoRows)` after a call, its handler, and the rest of the block.
abbrev pub resume : {A B : Type 0} → M B → (A → M B) → Outcome A → Outcome B
resume handler f (ok a w) = f a w
resume handler f (err no_rows w) = handler w
resume handler f (err e w) = err e w

unfoldable pub catch_no_rows : {A B : Type 0} → M A → M B → (A → M B) → M B
catch_no_rows m handler f w = resume handler f (m w)

-- A call whose error the caller keeps as a value.
pub data Tried (A : Type 0) : Type 0 where
  done : A → Tried A
  failed_with : Error → Tried A

abbrev pub tried : {A : Type 0} → Outcome A → Outcome (Tried A)
tried (ok a w) = ok (done a) w
tried (err e w) = ok (failed_with e) w

unfoldable pub attempt : {A : Type 0} → M A → M (Tried A)
attempt m w = tried (m w)

unfoldable pub modify : (Db → Db) → M Done
modify f w = ok tt (record w { db = f w.db })

unfoldable pub emit : Signal → M Done
emit s w = ok tt (record w { signals = s ∷ w.signals })

-- `s.NewID()` and `s.Clock.Now()`: the n-th call of each gives what the parameter says.
unfoldable pub new_id : (ℕ → Ident) → M Ident
new_id supply w = ok (supply w.ids_drawn) (record w { ids_drawn = suc w.ids_drawn })

unfoldable pub now : (ℕ → Time) → M Time
now clock w = ok (clock w.clock_reads) (record w { clock_reads = suc w.clock_reads })

-- Debits minus credits of the entries under one txn_id.
unfoldable pub imbalance : Ident → List LedgerEntry → ℤ
imbalance t [] = pos 0
imbalance t (e ∷ es) =
    let rest = imbalance t es in if e.txn_id == t then signed e.direction e.amount rest else rest
  where
    signed : Direction → ℤ → ℤ → ℤ
    signed debit x r = r +ℤ x
    signed credit x r = r -ℤ x

-- `check_ledger_txn_balanced`, at each of some entries.
unfoldable pub ledger_balanced : List LedgerEntry → List LedgerEntry → Bool
unfolding imbalance
ledger_balanced all [] = true
ledger_balanced all (e ∷ es) = eqb_ℤ (imbalance e.txn_id all) (pos 0) && ledger_balanced all es

-- The deferred trigger of migration 0006 at the commit. It runs for the rows that were inserted; entries
-- are only ever added, in front.
unfoldable pub commits : Db → Db → Bool
unfolding ledger_balanced
commits before after =
    ledger_balanced after.ledger (take (length after.ledger - length before.ledger) after.ledger)

-- How `Repo.Tx` ends, from the database at its start.
unfoldable pub end_tx : {A : Type 0} → Db → Outcome A → Outcome A
unfolding commits
end_tx before (ok a w) =
    if commits before w.db then ok a w else err ledger_unbalanced (record w { db = before })
end_tx before (err e w) = err e (record w { db = before })

unfoldable pub tx : {A : Type 0} → M A → M A
unfolding end_tx
tx m w = end_tx w.db (m w)

-- A name for all the steps, for the `unfolding` line of a test.
unfoldable pub steps : Done
unfolding pure fail read one looking ◌>>=◌ fail_if when branch option catch_no_rows attempt modify
    emit new_id now tx
steps = tt
