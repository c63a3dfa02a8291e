-- ===== src/Tests/Sessions.antt =====
-- The sessions of crates/net/src/orchestrator.rs with one asset of three bytes.
use photosync.Prelude.{refl, inr, true, false, none, some, List, [], ◌∷◌, arith, ◌^◌}
use photosync.Prelude.Int.{pos}
use photosync.Model.{HaveVerdict, sender}
use photosync.Identity.Laws.{quiet}
use photosync.Proto.{
  Message, chunk_ack, ChunkOutcome, asset_ack, AssetOutcome, session_resume, session_begin,
  have_response, have_query, session_end,
}
use photosync.Db.{Db, AssetRow, PeerRow, empty_db}
use photosync.Catalog.Backlog.{FilterArgs, Candidate}
use photosync.Net.Link.{Arrival, framed}
use photosync.Net.Talk.{World}
use photosync.Net.Talk.Laws.{Ends, Said}
use photosync.Net.Talk.Reads.{InTime}
use photosync.Net.Handshake.{Handshaken}
use photosync.Chunk.{Chunk}
use photosync.Net.Sender.Retries.{Anyhow, Limited, send_chunk-Limited}
use photosync.Net.Sender.{Library, send_chunk, send_asset}
use photosync.Net.Sender.Honest.{Delivers}
use photosync.Net.Sender.Streaming.{Tries, Steady}
use photosync.Net.Sender.Bounds.{send_asset-Delivers}
use photosync.Net.Sending.{sender_session}
use photosync.Net.Sending.Backlog.{Ended, sender_session-Ended}
use photosync.Net.Sending.Termination.{sender_session-InTime}
use photosync.Net.Receiver.{Sink, receiver_session}
use photosync.Net.Receiver.Handling.{Kept, Held}
use photosync.Net.Receiver.Account.{receiver_session-Kept}
use photosync.Net.Receiver.Termination.{receiver_session-InTime}
use photosync.Session.{max_asset_attempts, new_session}
use photosync.Tests.Transfers.{plain, plain-IsIncremental}
use photosync.Tests.Transfers as Transfers
use photosync.Tests.Receiving as Receiving
use photosync.Tests.Codes.{session}

abbrev library : Library
library id k = some (quiet Transfers.photo Transfers.photo k)

library-Steady : Steady library "a" Transfers.photo
library-Steady k = inr (Transfers.photo, k, refl)

abbrev candidate : Candidate
candidate = record { id = 1; platform_asset_id = "a"; descriptor = Receiving.photo }

abbrev pub row : AssetRow
row = record {
  id = 1;
  platform_asset_id = "a";
  quick_hash = some Receiving.quick.bytes;
  full_hash = none;
  size = pos 3;
  media_type = "image";
  mime = "image/jpeg";
  created_at = pos 5;
  modified_at = pos 5;
  width = none;
  height = none;
  duration_ms = none;
  display_name = none;
  resource_group_id = none;
  is_local = true;
  scanned_at = 5;
}

abbrev friend : PeerRow
friend = record {
  id = 1;
  cert_fingerprint = Receiving.quick.bytes;
  device_name = none;
  platform = none;
  paired_at = 1;
  last_seen_at = 1;
}

abbrev pub tables : Db
tables = record empty_db {
  peers = friend ∷ [];
  local_assets = row ∷ [];
  sessions = new_session "t" sender (some 1) 1 0 9 ∷ [];
}

abbrev hears : List Arrival → World
hears arrivals = record {
  incoming = arrivals;
  outages = [];
  lulls = true ∷ [];
  sent = [];
  opened = 0;
  code_session = session;
  tables = tables;
}

abbrev says : Message → Arrival
says m = framed (record { message = m; payload = [] })

-- The answers to the asset, after one corrupt chunk.
abbrev answers : List Arrival
answers =
    says (chunk_ack 0 ChunkOutcome.corrupt)
    ∷ says (chunk_ack 0 (ChunkOutcome.accepted 3))
    ∷ says (asset_ack AssetOutcome.committed)
    ∷ []

asset_example :
    Ends
      (λ r u.
        Said (Tries plain Transfers.photo max_asset_attempts) (hears answers) u
        × Delivers plain Transfers.photo r)
      (λ e u. Said (Tries plain Transfers.photo max_asset_attempts) (hears answers) u)
      (send_asset plain (2 ^ 64) library "t" 9 candidate 0 (hears answers))
asset_example =
    send_asset-Delivers plain plain-IsIncremental (2 ^ 64) library "t" 9 candidate Transfers.photo
      refl (omega arith) (omega arith) library-Steady 0 (hears answers)

abbrev spoilt : Arrival
spoilt = says (chunk_ack 0 ChunkOutcome.corrupt)

abbrev piece : Chunk
piece = record { offset = 0; payload = Transfers.photo; hash = record { bytes = Transfers.photo } }

retries_example :
    Ends
      (λ _ u. Limited 0 (hears (spoilt ∷ spoilt ∷ spoilt ∷ spoilt ∷ [])) u)
      Anyhow
      (send_chunk plain
        (2 ^ 64)
        library
        "t"
        9
        candidate
        4
        Transfers.sending
        piece
        0
        (hears (spoilt ∷ spoilt ∷ spoilt ∷ spoilt ∷ [])))
retries_example =
    send_chunk-Limited plain (2 ^ 64) library "t" 9 candidate 4 Transfers.sending piece
      (hears (spoilt ∷ spoilt ∷ spoilt ∷ spoilt ∷ []))

abbrev met : Handshaken
met = record { peer_id = 1; peer_fingerprint = Receiving.quick; peer_name = "phone" }

abbrev filter : FilterArgs
filter = record { peer_id = 1; include_videos = false }

abbrev round : List Arrival
round = says (have_response (record { id = 1; verdict = HaveVerdict.send } ∷ [])) ∷ answers

sending_example :
    Ends
      (Ended filter)
      (λ _ _. Unit {0})
      (sender_session plain
        (2 ^ 64)
        library
        "s"
        9
        false
        met
        (hears (says (session_resume []) ∷ round)))
sending_example =
    sender_session-Ended plain (2 ^ 64) library "s" 9 false met
      (hears (says (session_resume []) ∷ round))

backlog_example :
    Ends
      (λ _ _. Unit {0})
      InTime
      (sender_session plain
        (2 ^ 64)
        library
        "s"
        9
        false
        met
        (hears (says (session_resume []) ∷ round)))
backlog_example =
    sender_session-InTime plain (2 ^ 64) library "s" 9 false met
      (hears (says (session_resume []) ∷ round))

abbrev pub sink : Sink
sink = record {
  staging = λ x k. some ("a", quiet [] [] 0);
  abandon = λ ref k. some tt;
  commit = λ ref x k. some "b";
}

abbrev asked : List Arrival
asked =
    says (session_begin sender "s" 1 3)
    ∷ says (have_query (record { id = 1; quick_hash = Receiving.quick; full_hash = none } ∷ []))
    ∷ says (session_end 0 0 0 0)
    ∷ []

receiving_example :
    Ends
      (Kept (hears asked))
      (Held (hears asked))
      (receiver_session plain (2 ^ 64) sink 9 "s" none met (hears asked))
receiving_example = receiver_session-Kept plain (2 ^ 64) sink 9 "s" none met (hears asked)

arrivals_example :
    Ends
      (λ _ _. Unit {0})
      InTime
      (receiver_session plain (2 ^ 64) sink 9 "s" none met (hears asked))
arrivals_example = receiver_session-InTime plain (2 ^ 64) sink 9 "s" none met (hears asked)
