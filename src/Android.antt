-- ===== src/Android.antt =====
-- crates/android/src/session.rs: the app's receiving loop, its session slot and the scan of the library.
-- The parts that are I/O are arguments: the connections that arrive, the time, what TLS and the media
-- store answer.
pub mod Accept
pub mod Slot
pub mod Scan
use photosync.Prelude.{
  ℕ, zero, suc, ◌+◌, Bool, true, false, not, Option, none, some, List, [], ◌∷◌, String, length,
  if◌then◌else◌,
}
use photosync.Prelude.Bytes.{Bytes}
use photosync.Errors.{Error, Result, ok, err}
use photosync.Model.{Hash32}
use photosync.Identity.{Sha256}
use photosync.Pairing.{Hmac, PairingCode, CodeSession, with_code, is_live}
use photosync.Db.{Db}
use photosync.Session.{Session, latest_resumable, sweep_stale_active}
use photosync.Net.Link.{Arrival, LinkError}
use photosync.Net.Talk.{World, Talked, said, broke}
use photosync.Net.Handshake.{Own, ReceiverAuth}
use photosync.Net.Orchestrator.Finishing.{Totals}
use photosync.Net.Receiver.{Sink, run_receiver}

-- A connection that is accepted: whether TLS completes, the certificate that was seen, what the link
-- does, and what the receiver draws for it. `checked` is the time before it was accepted.
pub record Connection : Type 0 where
  pub checked : ℕ
  pub now : ℕ
  pub tls : Bool
  pub observed : Option Hash32
  pub incoming : List Arrival
  pub outages : List (Option LinkError)
  pub lulls : List Bool
  pub nonce : Bytes
  pub fresh : ℕ
  pub fresh_sid : String

-- What the loop keeps between connections.
pub record Waiting : Type 0 where
  pub tables : Db
  pub code_session : CodeSession
  pub opened : ℕ

pub data Accepted : Type 0 where
  served : Totals → Waiting → Accepted
  used_up : Waiting → Accepted
  broken : Error → Accepted
  waiting : Waiting → Accepted

abbrev pub left_by : World → Waiting
left_by w = record { tables = w.tables; code_session = w.code_session; opened = w.opened }

-- The world of a new link.
abbrev pub joined_by : Connection → Waiting → World
joined_by c s = record {
  incoming = c.incoming;
  outages = c.outages;
  lulls = c.lulls;
  sent = [];
  opened = s.opened;
  code_session = s.code_session;
  tables = s.tables;
}

abbrev pub session_id : Option Session → Option String
session_id none = none
session_id (some s) = some s.id

abbrev pub after_run : (Waiting → Accepted) → Talked Totals → Accepted
after_run again (said n w) = served n (left_by w)
after_run again (broke e w) = again (left_by w)

module _ (h : Hmac) (d : Sha256) (usize_mod : ℕ) (sink : Sink) (own : Own) where
  abbrev pub resumed :
      (Waiting → Accepted) → Connection → Hash32 → Waiting → Result (Option Session) → Accepted
  resumed again c peer s (err e) = broken e
  resumed again c peer s (ok found) = after_run again (
      run_receiver d usize_mod sink c.now h own peer ReceiverAuth.by_code c.nonce c.fresh
        c.fresh_sid (session_id found) (joined_by c s))

  abbrev pub observed_by : (Waiting → Accepted) → Connection → Waiting → Option Hash32 → Accepted
  observed_by again c s none = again s
  observed_by again c s (some peer) = resumed again c peer s (latest_resumable s.tables)

  -- A round of the `loop` of `receiver_loop`.
  unfoldable pub on_connection : (Waiting → Accepted) → Connection → Waiting → Accepted
  on_connection again c s =
      if not (is_live s.code_session c.checked)
      then used_up s
      else if c.tls
      then observed_by again c s c.observed
      else again s

  -- The `loop`, over the connections that arrive; behind the last it goes on waiting, unless the code
  -- is no longer live.
  unfoldable pub accept_all : ℕ → List Connection → Waiting → Accepted
  unfolding on_connection
  accept_all late [] s = if is_live s.code_session late then waiting s else used_up s
  accept_all late (c ∷ cs) s = on_connection (accept_all late cs) c s

  -- `receiver_loop`, once the port is bound and the database is open.
  unfoldable pub receiver_loop : PairingCode → ℕ → ℕ → List Connection → Db → Accepted
  unfolding accept_all
  receiver_loop code now late cs t = accept_all late cs (record {
    tables = (sweep_stale_active t now).1;
    code_session = with_code code now;
    opened = 0;
  })
