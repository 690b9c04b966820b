-- ===== src/Tests/Gossip.antt =====
-- The claim of 40 carried to the server in a gossip blob, between a blob that went too far and one that
-- does not open, and the finalize event of its payer.
use offline_pay.Base.{◌≡◌, refl, Option, none, some, List, [], ◌∷◌}
use offline_pay.Base.Int.{ℤ, pos}
use offline_pay.Domain.Tokens.{Bytes, Ident, GossipBlob}
use offline_pay.Store.Rows.{OutboxEnvelope, OutboxPayload, transfer_event, finalize_payer}
use offline_pay.Store.Rows as Rows
use offline_pay.Store.Monad.{World, ok, world_of}
use offline_pay.Store.Runs.{Ran}
use offline_pay.Settlement.Calls.{settlement_calls}
use offline_pay.Settlement.Process.{
  FinalizeProcessor, finalize_and_mark, handle_finalize, handle_event, process_finalize,
}
use offline_pay.Settlement.Processed.{process_finalize-again}
use offline_pay.Gossip.Upload.{Service, SealedBoxKey, WireInnerPayload, upload}
use offline_pay.Gossip.Reported.{Reports, upload-Reports}
use offline_pay.Tests.Fixture.{settlement, world, claim}

abbrev box_key : SealedBoxKey
box_key = record { key_id = 1; public_key = 1 ∷ []; private_key = some (2 ∷ []); retired_at = none }

abbrev inner : WireInnerPayload
inner = record {
  ceiling = record {
    id = 50;
    payload = record {
      payer_id = 10;
      ceiling_amount = pos 100;
      issued_at = 100;
      expires_at = 900;
      sequence_start = pos 0;
      payer_public_key = 2 ∷ [];
      bank_key_id = 77;
    };
    bank_signature = 3 ∷ [];
  };
  payment = claim.payment;
  request = claim.request;
  sender_user_id = 0;
}

-- A box of one byte opens.
abbrev opens : Bytes → Option Bytes
opens (x ∷ []) = some []
opens _ = none

abbrev gossip : Service
gossip = record {
  settlement = settlement;
  keyring = record { current = box_key; previous = [] };
  open_anonymous = λ public private box. opens box;
  decode_inner = λ plain. some inner;
}

abbrev blob : ℤ → Bytes → GossipBlob
blob hops box = record {
  transaction_hash = 4 ∷ [];
  encrypted_blob = box;
  bank_signature = 5 ∷ [];
  ceiling_token_hash = 6 ∷ [];
  hop_count = hops;
  blob_size = pos 1;
}

abbrev blobs : List GossipBlob
blobs = blob (pos 4) (1 ∷ []) ∷ blob (pos 3) (1 ∷ []) ∷ blob (pos 0) (1 ∷ 1 ∷ []) ∷ []

upload-Reports_example : (h : Ran (upload gossip 30 blobs) world) × Reports gossip blobs h.result
unfolding offline_pay.Gossip.Upload.all_keys
upload-Reports_example = upload-Reports gossip 30 blobs world refl

abbrev decoded_payer : OutboxPayload → Option Ident
decoded_payer (finalize_payer payer reason time) = some payer
decoded_payer _ = none

abbrev processor : FinalizeProcessor
processor = record { service = settlement; decode_payer = decoded_payer }

abbrev event : OutboxEnvelope
event = record {
  id = 4000;
  aggregate = Rows.settlement_finalize;
  aggregate_id = 10;
  payload = finalize_payer 10 Rows.claim_accepted 600;
}

abbrev claimed : World
claimed = world_of (upload gossip 30 blobs world)

abbrev handled : World
handled = world_of (process_finalize processor (some event) claimed)

handle-run : process_finalize processor (some event) claimed ≡ ok tt handled
unfolding settlement_calls finalize_and_mark handle_finalize handle_event process_finalize
    offline_pay.Store.Transfers.is_event_processed offline_pay.Store.Transfers.mark_event_processed
    offline_pay.Store.Transfers.event_of offline_pay.Store.Transfers.with_event
    offline_pay.Gossip.Upload.upload offline_pay.Gossip.Upload.upload_all
    offline_pay.Gossip.Upload.upload_one offline_pay.Domain.Validate.validate_blob
    offline_pay.Gossip.Upload.route
handle-run = refl

process_finalize-again_example : process_finalize processor (some event) handled ≡ ok tt handled
process_finalize-again_example =
    process_finalize-again processor processor event claimed handled tt
      (record { run = handle-run })
