-- ===== src/Gossip/Reported.antt =====
-- What an upload of gossip blobs reports to the device that carries them (gossip/service.go).
use offline_pay.Base.{
  ℕ, suc, ◌+◌, ◌≡◌, ◌≢◌, refl, ap, ◌∙◌, Bool, true, false, not, Option, none, some, List, [], ◌∷◌,
  arith, length, is_some, ◌==◌, if◌then◌else◌,
}
use offline_pay.Base.Int.{pos, ltb_ℤ}
use offline_pay.Domain.Tokens.{Ident, GossipBlob, no_id}
use offline_pay.Domain.Validate.{Invalid, validate_blob}
use offline_pay.Domain.Laws.{SoundBlob, validate_blob-SoundBlob}
use offline_pay.Store.Monad.{
  World, M, Tried, done, failed_with, Outcome, ok, err, attempt, pure, branch, option, ◌>>=◌,
}
use offline_pay.Store.Runs.{Ran}
use offline_pay.Store.Runs.Forward.{>>=-eq, fail_if-eq}
use offline_pay.Settlement.Types.{SettlementBatch, SettlementResult}
use offline_pay.Settlement.Submit.{submit_claim}
use offline_pay.Gossip.Upload.{
  Service, WireInnerPayload, BlobError, BlobResult, bad_blob, blob_hop_limit_exceeded, refused,
  UploadResult, all_keys, inner_of, receiver_of, claim_of, routed, route, upload_one, add_item,
  upload_all, upload,
}

-- What is reported of one blob: under its own hash; with an error exactly where it is not accepted, which
-- is never the one of the hop limit; and where it is accepted, the blob is sound and was opened.
pub record Answers (s : Service) (blob : GossipBlob) (item : BlobResult) : Type 0 where
  pub same_hash : item.transaction_hash ≡ blob.transaction_hash
  pub error_told : is_some item.error ≡ not item.accepted
  pub not_hops : item.error ≢ some blob_hop_limit_exceeded
  pub sound : item.accepted ≡ true → SoundBlob blob
  pub opened : item.accepted ≡ true → is_some (inner_of s (all_keys s.keyring) blob) ≡ true

-- Item by item, in the order of the blobs.
pub data AnswersEach (s : Service) : List GossipBlob → List BlobResult → Type 0 where
  all_answered : AnswersEach s [] []
  next_answered :
      {blob : GossipBlob} {item : BlobResult} {blobs : List GossipBlob} {items : List BlobResult}
      → Answers s blob item
      → AnswersEach s blobs items
      → AnswersEach s (blob ∷ blobs) (item ∷ items)

abbrev pub accepted_items : List BlobResult → ℕ
accepted_items [] = 0
accepted_items (item ∷ items) =
    if item.accepted then suc (accepted_items items) else accepted_items items

pub record Reports (s : Service) (blobs : List GossipBlob) (r : UploadResult) : Type 0 where
  pub each : AnswersEach s blobs r.items
  pub accepted_counted : r.accepted ≡ accepted_items r.items
  pub all_counted : r.accepted + r.rejected ≡ length blobs

-- A step that reports on a blob.
abbrev Answering : Service → GossipBlob → M BlobResult → World → Type 0
Answering s blob m w = (h : Ran m w) × Answers s blob h.result

module _ (s : Service) (blob : GossipBlob) (w : World) where
  refused-Answers :
      (e : BlobError)
      → some e ≢ some blob_hop_limit_exceeded
      → Answering s blob (pure (refused blob e)) w
  unfolding pure
  refused-Answers e other = (
    record { result = refused blob e; after = w; runs = record { run = refl } },
    record {
      same_hash = refl;
      error_told = refl;
      not_hops = other;
      sound = λ h. ground arith;
      opened = λ h. ground arith;
    },
  )

  module _ (sound : SoundBlob blob)
      (opened : is_some (inner_of s (all_keys s.keyring) blob) ≡ true) where
    routed-Answers :
        (r : Tried (SettlementBatch × List SettlementResult)) → Answers s blob (routed blob r)
    unfolding routed
    routed-Answers (failed_with e) = record {
      same_hash = refl;
      error_told = refl;
      not_hops = λ h. ground arith;
      sound = λ h. sound;
      opened = λ h. opened;
    }
    routed-Answers (done (batch, results)) = record {
      same_hash = refl;
      error_told = refl;
      not_hops = λ h. ground arith;
      sound = λ h. sound;
      opened = λ h. opened;
    }

    route-Answers :
        (inner : WireInnerPayload) (o : Outcome (SettlementBatch × List SettlementResult))
        → submit_claim s.settlement (receiver_of inner) (claim_of inner ∷ []) no_id w ≡ o
        → Answering s blob (route s blob inner) w
    unfolding route attempt ◌>>=◌ pure
    route-Answers inner (ok a v) e = (
      record { result = routed blob (done a); after = v; runs = record { run = rw e refl } },
      routed-Answers (done a),
    )
    route-Answers inner (err x v) e = (
      record { result = routed blob (failed_with x); after = v; runs = record { run = rw e refl } },
      routed-Answers (failed_with x),
    )

  opened_answers :
      (o : Option WireInnerPayload)
      → SoundBlob blob
      → inner_of s (all_keys s.keyring) blob ≡ o
      → Answering s blob (option o (pure (refused blob bad_blob)) (λ inner. route s blob inner)) w
  unfolding option
  opened_answers none sound e = refused-Answers bad_blob (λ h. ground arith)
  opened_answers (some inner) sound e = route-Answers sound (ap is_some e) inner _ refl

  near_answers :
      (far : Bool)
      → SoundBlob blob
      → far ≡ false
      → (m : M BlobResult) → Answering s blob m w
      → Answering s blob (branch far (pure (refused blob blob_hop_limit_exceeded)) m) w
  unfolding branch
  near_answers false sound h m rest = rest
  near_answers true sound h m rest = ground arith

  sound_answers :
      (o : Option Invalid) (m : M BlobResult)
      → validate_blob blob ≡ o
      → (SoundBlob blob → Answering s blob m w)
      → Answering s blob (branch (is_some o) (pure (refused blob bad_blob)) m) w
  unfolding branch
  sound_answers none m e rest = rest (validate_blob-SoundBlob blob e)
  sound_answers (some x) m e rest = refused-Answers bad_blob (λ h. ground arith)

  not_far : SoundBlob blob → ltb_ℤ (pos 3) blob.hop_count ≡ false
  not_far sound = let near = sound.hops_bounded in ground arith

  upload_one-Answers : Answering s blob (upload_one s (all_keys s.keyring) blob) w
  unfolding upload_one
  upload_one-Answers =
      sound_answers _ _ refl
        λ sound. near_answers _ sound (not_far sound) _ (opened_answers _ sound refl)

module _ (s : Service) where
  add_item-Reports :
      (blob : GossipBlob) (item : BlobResult) (blobs : List GossipBlob) (rest : UploadResult)
      → Answers s blob item
      → Reports s blobs rest
      → Reports s (blob ∷ blobs) (add_item item rest)
  unfolding add_item
  add_item-Reports blob item blobs rest a r = record {
    each = next_answered a r.each;
    accepted_counted = let counted = r.accepted_counted in ground arith;
    all_counted = let counted = r.all_counted in ground arith;
  }

  upload_all-Reports :
      (blobs : List GossipBlob) (w : World)
      → (h : Ran (upload_all s (all_keys s.keyring) blobs) w) × Reports s blobs h.result
  unfolding upload_all pure
  upload_all-Reports [] w = (
    record { result = _; after = w; runs = record { run = refl } },
    record { each = all_answered; accepted_counted = refl; all_counted = refl },
  )
  upload_all-Reports (blob ∷ blobs) w =
      let (one, answered) = upload_one-Answers s blob w in
      let (others, reported) = upload_all-Reports blobs one.after in
      (
        record {
          result = add_item one.result others.result;
          after = others.after;
          runs = record { run = >>=-eq _ _ _ _ _ one.runs.run ∙ >>=-eq _ _ _ _ _ others.runs.run };
        },
        add_item-Reports blob one.result blobs others.result answered reported,
      )

-- With a key to open boxes with, an upload succeeds whatever the blobs hold and whatever the settlement
-- service answers. It reports on every blob, in their order and under their hashes: an error exactly where
-- a blob is not accepted, never that of the hop limit; only sound blobs that were opened are accepted; and
-- the numbers of accepted and rejected blobs are those of the report and add up.
pub upload-Reports :
    (s : Service) (u : Ident) (blobs : List GossipBlob) (w : World)
    → (length (all_keys s.keyring) == 0) ≡ false
    → (h : Ran (upload s u blobs) w) × Reports s blobs h.result
unfolding upload
upload-Reports s u blobs w keyed =
    let (all, reported) = upload_all-Reports s blobs w in
    (
      record {
        result = all.result;
        after = all.after;
        runs = record { run = >>=-eq _ _ _ _ _ (fail_if-eq _ _ w keyed) ∙ all.runs.run };
      },
      reported,
    )
