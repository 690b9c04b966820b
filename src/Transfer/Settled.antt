-- ===== src/Transfer/Settled.antt =====
-- The message of a transfer that can settle, handled for the first time (transfer/processor.go).
use mathlib.Core.Option.{some-injective}
use offline_pay.Base.{◌≡◌, ◌≢◌, sym, ap, ◌∙◌, ◌⊎◌, inl, inr, true, none, some, subst}
use offline_pay.Domain.Tokens.{Ident, Time}
use offline_pay.Store.Rows.{
  Db, Account, Aggregate, OutboxEnvelope, TransferPayload, TransferStatus, main,
}
use offline_pay.Store.Monad.{World, M, Done, ok, read, pure, branch, ◌>>=◌}
use offline_pay.Store.Accounts.{account_of}
use offline_pay.Store.Transfers.{event_of, is_event_processed}
use offline_pay.Store.Runs.Forward.{>>=-eq, tx-eq}
use offline_pay.Transfer.Types.{Service}
use offline_pay.Transfer.Process.{process_payload, handle, process_event, process}
use offline_pay.Transfer.Applied.{SettledFrom}
use offline_pay.Transfer.Outcome.{Decided, Unprovisioned, apply_transfer-outcome}
use offline_pay.Transfer.Progress.{Ready, apply_transfer-Settles}

settled-ne-failed : TransferStatus.settled ≢ TransferStatus.failed
settled-ne-failed e = cc

module _ (tp : TransferPayload) (a b : Account) (before after : Db) where
  -- The outcome of a transfer that settled, between the accounts that are known.
  pub settled_case :
      account_of tp.sender_user_id main before ≡ some a
      → account_of tp.receiver_user_id main before ≡ some b
      → Decided tp TransferStatus.settled before after
        ⊎ Unprovisioned tp TransferStatus.settled before after
      → (t : Time) × SettledFrom tp t a.id b.id before after
  unfolding Decided Unprovisioned
  settled_case p q (inr (_, e, _)) = absurd (settled-ne-failed e)
  settled_case p q (inl (x, y, t, p', q', inr (e, _, _))) = absurd (settled-ne-failed e)
  settled_case p q (inl (x, y, t, p', q', inl (_, s))) = (
    t,
    subst (λ i. SettledFrom tp t i b.id before after)
        (ap (λ z. z.id) (some-injective _ _ (sym p' ∙ p)))
        (subst (λ j. SettledFrom tp t x.id j before after)
          (ap (λ z. z.id) (some-injective _ _ (sym q' ∙ q))) s),
  )

module _ (s : Service) (tp : TransferPayload) (a b : Account) (w : World) where
  -- The transfer settles in one transaction, which commits.
  abbrev SettlesTo : M Done → Type 0
  SettlesTo m =
      (w' : World) × (m w ≡ ok tt w') × ((t : Time) × SettledFrom tp t a.id b.id w.db w'.db)

  payload-SettlesTo : (id : Ident) → Ready tp a b w.db → SettlesTo (process_payload s id (tp, true))
  unfolding process_payload pure
  payload-SettlesTo id r =
      let (w', runs) = apply_transfer-Settles s id tp a b w r in
      let moved =
        settled_case tp a b w.db w'.db r.sender r.receiver
          (apply_transfer-outcome s id tp w w' _ (record { run = runs })) in
      (w', >>=-eq _ _ w w' TransferStatus.settled (tx-eq _ w w' _ runs moved.1.unposted), moved)

  -- A first message of a transfer whose accounts are ready is handled with success: the amount goes
  -- from the sender's account to the receiver's, nothing else moves, and the transfer is SETTLED.
  pub process-settles :
      (e : OutboxEnvelope)
      → event_of e.id w.db ≡ none
      → e.aggregate ≡ Aggregate.transfer
      → s.decode_transfer e.payload ≡ (tp, true)
      → Ready tp a b w.db
      → SettlesTo (process s (some e))
  unfolding process process_event is_event_processed handle ◌>>=◌ read branch
  process-settles e new is decoded r = rw (new, is, decoded) (payload-SettlesTo e.id r)
