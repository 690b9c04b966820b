-- ===== src/Transfer/Again.antt =====
-- `InitiateTransfer` once more (transfer/service.go): a repeated call with the same reference is
-- answered with the transfer on record.
use offline_pay.Base.{
  ◌≡◌, refl, sym, ap, ◌∙◌, ◌⊎◌, inl, inr, ℕ, suc, Bool, true, false, some, List, [], ◌∷◌, ◌==◌,
  ◌&&◌, ==_refl, subst, find,
}
use offline_pay.Domain.Tokens.{Ident, Bytes}
use offline_pay.Store.Payments.{same_bytes}
use offline_pay.Store.Rows.{Db, KycTier, Transfer}
use offline_pay.Store.Monad.{World, Done, ok, ◌>>=◌, option, read, one, now, pure}
use offline_pay.Store.Runs.{Runs, bind-ok, fail_if-ok}
use offline_pay.Store.Runs.Forward.{>>=-eq, fail_if-eq, tx-eq}
use offline_pay.Store.Transfers.{transfer_by_ref}
use offline_pay.Transfer.Types.{Service, InitiateTransferInput}
use offline_pay.Transfer.Accept.{
  resolve_receiver_user_id, get_sender_kyc_tier, validate_input, accept_transfer, initiate_transfer,
  new_transfer,
}
use offline_pay.Transfer.Accepted.{
  OwnerOf, TierOf, Returned, Accepted, resolve-OwnerOf, tier-TierOf, validate-ok,
  initiate_transfer-Accepted,
}

same_bytes_refl : (b : Bytes) → same_bytes b b ≡ true
same_bytes_refl [] = refl
same_bytes_refl (x ∷ xs) = rw (==_refl x, same_bytes_refl xs) refl

module _ (i : InitiateTransferInput) where
  new_found :
      (id now r : ℕ) (flag : Bool) (rest : List Transfer)
      → find
          (λ t. (t.sender_user_id == i.sender_user_id) && same_bytes t.reference i.reference)
          (new_transfer id now i r flag ∷ rest)
        ≡ some (new_transfer id now i r flag)
  new_found id now r flag rest = rw (==_refl i.sender_user_id, same_bytes_refl i.reference) refl

  head_found :
      (t : Transfer) (id now r : ℕ) (flag : Bool) (before after : Db)
      → t ≡ new_transfer id now i r flag
      → after.transfers ≡ t ∷ before.transfers
      → transfer_by_ref i.sender_user_id i.reference after ≡ some t
  unfolding transfer_by_ref
  head_found t id now r flag before after e q =
      ap (find (λ t. (t.sender_user_id == i.sender_user_id) && same_bytes t.reference i.reference))
        (q ∙ ap (λ x. x ∷ before.transfers) e)
      ∙ new_found id now r flag before.transfers
      ∙ ap some (sym e)

  -- After either way, the reference is found.
  found_after :
      (s : Service) (t : Transfer) (before after : Db)
      → Returned i t before after ⊎ Accepted s i t before after
      → transfer_by_ref i.sender_user_id i.reference after ≡ some t
  unfolding Returned
  found_after s t before after (inl (found, same)) =
      subst (λ db. transfer_by_ref i.sender_user_id i.reference db ≡ some t) (sym same) found
  found_after s t before after (inr a) =
      head_found t a.made.0 a.made.1 a.made.2 a.made.3 before after a.made.5 a.inserted.transfers

  users_after :
      (s : Service) (t : Transfer) (before after : Db)
      → Returned i t before after ⊎ Accepted s i t before after
      → after.users ≡ before.users
  unfolding Returned
  users_after s t before after (inl (found, same)) = ap (λ db. db.users) same
  users_after s t before after (inr a) = a.inserted.users

  validate-eq :
      (w w' v : World) (u : Done) → Runs (validate_input i) w u w' → validate_input i v ≡ ok tt v
  unfolding validate_input
  validate-eq w w' v u h =
      let b = bind-ok _ h in
      let c = bind-ok _ b.1 in
      let d = bind-ok _ c.1 in
      >>=-eq _ _ v v tt (fail_if-eq _ _ v (fail_if-ok _ b.0.runs).0)
      ∙ >>=-eq _ _ v v tt (fail_if-eq _ _ v (fail_if-ok _ c.0.runs).0)
      ∙ >>=-eq _ _ v v tt (fail_if-eq _ _ v (fail_if-ok _ d.0.runs).0)
      ∙ fail_if-eq _ _ v (fail_if-ok _ d.1).0

resolve-eq :
    (s : Service) (number : Bytes) (r : Ident) (db : Db) (v : World)
    → v.db.users ≡ db.users
    → OwnerOf s number r db
    → resolve_receiver_user_id s number v ≡ ok r v
unfolding resolve_receiver_user_id OwnerOf option pure ◌>>=◌ read
resolve-eq s number r db v e (inl hit) = rw hit refl
resolve-eq s number r db v e (inr (miss, (u, found, same))) =
    let row : find (λ x. same_bytes x.account_number number) v.db.users ≡ some u =
      ap (find (λ x. same_bytes x.account_number number)) e ∙ found in
    rw (miss, row) (ap (λ id. ok id v) same)

tier-eq :
    (s : Service) (user : Ident) (tier : KycTier) (db : Db) (v : World)
    → v.db.users ≡ db.users
    → TierOf s user tier db
    → get_sender_kyc_tier s user v ≡ ok tier v
unfolding get_sender_kyc_tier TierOf option pure ◌>>=◌ one
tier-eq s user tier db v e (inl hit) = rw hit refl
tier-eq s user tier db v e (inr (miss, (u, found, same))) =
    let row : find (λ x. x.id == user) v.db.users ≡ some u =
      ap (find (λ x. x.id == user)) e ∙ found in
    rw (miss, row) (ap (λ x. ok x v) same)

-- The world after the transaction's clock was read.
abbrev later : World → World
later w = record w { clock_reads = suc w.clock_reads }

accept-eq :
    (s : Service) (i : InitiateTransferInput) (r : Ident) (tier : KycTier) (t : Transfer)
    (w : World)
    → transfer_by_ref i.sender_user_id i.reference w.db ≡ some t
    → accept_transfer s i r tier w ≡ ok t (later w)
unfolding accept_transfer ◌>>=◌ now read option pure
accept-eq s i r tier t w e = rw e refl

module _ (s : Service) (i : InitiateTransferInput) (w w' : World) (t : Transfer) where
  replay :
      (r : Ident) (tier : KycTier) (u : Done) (v : World)
      → Runs (validate_input i) w u v
      → OwnerOf s i.receiver_account_number r w.db
      → (r == i.sender_user_id) ≡ false
      → TierOf s i.sender_user_id tier w.db
      → w'.db.users ≡ w.db.users
      → transfer_by_ref i.sender_user_id i.reference w'.db ≡ some t
      → initiate_transfer s i w' ≡ ok t (later w')
  unfolding initiate_transfer
  replay r tier u v valid owner other known users found =
      >>=-eq _ _ w' w' tt (validate-eq i w v w' u valid)
      ∙ >>=-eq _ _ w' w' r (resolve-eq s i.receiver_account_number r w.db w' users owner)
      ∙ >>=-eq _ _ w' w' tt (fail_if-eq _ _ w' other)
      ∙ >>=-eq _ _ w' w' tier (tier-eq s i.sender_user_id tier w.db w' users known)
      ∙ tx-eq _ w' (later w') t (accept-eq s i r tier t w' found) refl

  -- A call of `InitiateTransfer` that succeeded and is made again at once succeeds with the same
  -- transfer and writes nothing in the database.
  pub initiate_transfer-again :
      Runs (initiate_transfer s i) w t w'
      → (v : World) × (initiate_transfer s i w' ≡ ok t v) × (v.db ≡ w'.db)
  unfolding initiate_transfer
  initiate_transfer-again h =
      let ended = initiate_transfer-Accepted s i w w' t h in
      let b = bind-ok _ h in
      let valid = validate-ok i _ _ _ b.0.runs in
      let c = bind-ok _ b.1 in
      let owner = resolve-OwnerOf s i.receiver_account_number _ _ _ c.0.runs in
      let d = bind-ok _ c.1 in
      let other = fail_if-ok _ d.0.runs in
      let e = bind-ok _ d.1 in
      let tier = tier-TierOf s i.sender_user_id _ _ _ e.0.runs in
      (
        later w',
        replay c.0.result e.0.result _ b.0.after b.0.runs
            (subst (λ x. OwnerOf s i.receiver_account_number c.0.result x.db) valid.1 owner.0)
            other.0
            (subst (λ x. TierOf s i.sender_user_id e.0.result x.db) (other.1 ∙ owner.1 ∙ valid.1)
              tier.0)
            (users_after i s t w.db w'.db ended) (found_after i s t w.db w'.db ended),
        refl,
      )
