-- ===== src/Transfer/Dispatch.antt =====
-- transfer/dispatcher.go: one tick of the dispatcher, and its back-off. An envelope of a row always
-- has its JSON; the subject of a message and the counters are left out.
use offline_pay.Base.{ℕ, zero, suc, ◌+◌, ◌*◌, List, [], ◌∷◌, ltb, if◌then◌else◌}
use offline_pay.Base.Int.{pos, pos_part, leb_ℤ}
use offline_pay.Domain.Tokens.{Time, second}
use offline_pay.Store.Rows.{OutboxRow}
use offline_pay.Store.Monad.{M, Done, pure, branch, emit, now, tx, published, ◌>>=◌, ◌>>◌}
use offline_pay.Store.Transfers.{claim_batch, mark_dispatched, bump_attempt}
use offline_pay.Store.Rows.{OutboxEnvelope}
use offline_pay.Transfer.Types.{Service}

abbrev pub minute : ℕ
minute = 60_000_000_000

-- The loop of `backoff`, over the attempts left.
unfoldable pub doubled : ℕ → ℕ → ℕ
doubled zero d = d
doubled (suc n) d = let rest = doubled n (d * 2) in if ltb d minute then rest else d

unfoldable pub backoff : ℕ → ℕ
unfolding doubled
backoff attempts = let d = doubled attempts second in if ltb minute d then minute else d

-- `batch()`
unfoldable pub batch : Service → ℕ
batch s = if leb_ℤ s.batch_size (pos 0) then 16 else pos_part s.batch_size

abbrev pub envelope_of : OutboxRow → OutboxEnvelope
envelope_of row = record {
  id = row.id;
  aggregate = row.aggregate;
  aggregate_id = row.aggregate_id;
  payload = row.payload;
}

-- One claim: published and marked, or put off.
unfoldable pub dispatch_one : Service → Time → OutboxRow → M Done
unfolding backoff
dispatch_one s start row =
    branch (s.publishes row.id row.attempts)
      (do emit (published row.id); mark_dispatched start row.id)
      (do time ← now s.clock; bump_attempt row.id (time + backoff row.attempts))

unfoldable pub dispatch_all : Service → Time → List OutboxRow → M Done
unfolding dispatch_one
dispatch_all s start [] = pure tt
dispatch_all s start (row ∷ rows) = do dispatch_one s start row; dispatch_all s start rows

unfoldable pub tick : Service → M Done
unfolding dispatch_all batch
tick s =
    tx (do start ← now s.clock; claims ← claim_batch start (batch s); dispatch_all s start claims)
