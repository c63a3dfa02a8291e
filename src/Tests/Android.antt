-- ===== src/Tests/Android.antt =====
-- crates/android/src/session.rs at concrete inputs.
use photosync.Prelude.{◌+◌, ◌^◌, ◌≡◌, refl, true, false, none, some, [], ◌∷◌, map}
use photosync.Db.{Db, empty_db}
use photosync.Identity.Laws.{quiet}
use photosync.Pairing.{with_code}
use photosync.Net.Link.{framed}
use photosync.Net.Sender.{Library}
use photosync.Net.Handshake.Agreement.{sender_says}
use photosync.Catalog.Assets.{pending_hashes}
use photosync.Android.{Connection, receiver_loop}
use photosync.Android.Accept.{Served, receiver_loop-Served}
use photosync.Android.Slot.{
  App, ask, claim, running, asked, said_so, spawned, Steps, here, step, idle, started_status,
}
use photosync.Android.Slot.Exclusive.{Exclusive, Lost, reachable-Exclusive, panicked_loses}
use photosync.Android.Scan.{Scanned, hash_batch, drain_queue}
use photosync.Android.Scan.Drained.{queued, drain_queue_ends}
use photosync.Tests.Codes.{joined, wide, code}
use photosync.Tests.Transfers.{plain}
use photosync.Tests.Transfers as Transfers
use photosync.Tests.Handshakes.{device}
use photosync.Tests.Sessions.{sink, tables, row}

-- A probe of the scan, and then the other device.
abbrev probe : Connection
probe = record {
  checked = 6;
  now = 6;
  tls = false;
  observed = none;
  incoming = [];
  outages = [];
  lulls = [];
  nonce = wide 1;
  fresh = 2;
  fresh_sid = "s";
}

abbrev phone : Connection
phone = record probe {
  tls = true;
  observed = some (device 2).fingerprint;
  incoming = map framed (sender_says joined (device 2) (device 3) (wide 1) code);
}

served_example :
    Served joined plain
      (2 ^ 64)
      sink
      (device 3)
      (with_code code 5)
      (probe ∷ phone ∷ [])
      (receiver_loop joined plain (2 ^ 64) sink (device 3) code 5 9 (probe ∷ phone ∷ []) empty_db)
served_example =
    receiver_loop-Served joined plain (2 ^ 64) sink (device 3) code 5 9 (probe ∷ phone ∷ [])
      empty_db

abbrev at_work : App
at_work = record { busy = true; status = started_status; stages = running ∷ [] }

at_work-reached : Steps idle at_work
unfolding ask claim
at_work-reached = step asked (step (said_so [] [] refl) (step (spawned [] [] refl) here))

one_session_example : Exclusive at_work
one_session_example = reachable-Exclusive at_work at_work-reached

abbrev after_panic : App
after_panic = record at_work { stages = [] }

still_taken : Steps after_panic after_panic
unfolding ask claim
still_taken = step asked here

lost_example : Lost after_panic
lost_example = panicked_loses at_work after_panic [] [] at_work-reached refl still_taken

abbrev library : Library
library id k = some (quiet Transfers.photo Transfers.photo k)

abbrev unhashed : Db
unhashed = record tables { local_assets = record row { quick_hash = none } ∷ row ∷ [] }

abbrev begun : Scanned
begun = record { tables = unhashed; hashed = 0; opened = 0 }

drain_example :
    (u : Scanned) × (drain_queue plain library (queued unhashed.local_assets + 1) begun ≡ some u)
    × (pending_hashes u.tables hash_batch ≡ [])
drain_example = drain_queue_ends plain library begun
