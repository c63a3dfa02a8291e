-- ===== src/Net/Talk.antt =====
-- A conversation over a `Link` of crates/net/src/link.rs, as the sessions of orchestrator.rs hold it: what
-- arrives, what was sent, and the state the code changes. `outages` says of each coming write whether
-- it fails, `lulls` of each coming keepalive whether the link has been quiet for long.
pub mod Laws
pub mod Reads
use photosync.Prelude.{
  ℕ, ◌+◌, Bool, true, false, Option, none, some, List, [], ◌∷◌, ◌++◌, String, if◌then◌else◌,
}
use photosync.Errors.{Error, Result, ok, err, Run, done, fail}
use photosync.Proto.{Frame, Message, heartbeat, new_frame, AbortReason}
use photosync.Pairing.{CodeSession}
use photosync.Db.{Db}
use photosync.Net.Link.{LinkError, Arrival, LinkReading, received, failed, read}

-- `Error` of orchestrator.rs; `panicked` is the panic of an `expect`, which ends the session too.
-- `endless` is not of the code: a loop has not ended within the rounds that it was given.
pub data SessionError : Type 0 where
  unexpected sink_failed source_failed auth_failed panicked endless : SessionError
  core : Error → SessionError
  link : LinkError → SessionError
  peer_aborted : AbortReason → String → SessionError
  version_mismatch : ℕ → ℕ → SessionError

pub record World : Type 0 where
  pub incoming : List Arrival
  pub outages : List (Option LinkError)
  pub lulls : List Bool
  pub sent : List Frame
  pub opened : ℕ
  pub code_session : CodeSession
  pub tables : Db

pub data Talked (A : Type 0) : Type 0 where
  said : A → World → Talked A
  broke : SessionError → World → Talked A

abbrev pub Talk : Type 0 → Type 0
Talk A = World → Talked A

abbrev pub continue : {A B : Type 0} → (A → Talk B) → Talked A → Talked B
continue k (said a w) = k a w
continue k (broke e w) = broke e w

infixl 5 ◌>>=◌ ◌>>◌
abbrev pub ◌>>=◌ : {A B : Type 0} → Talk A → (A → Talk B) → Talk B
◌>>=◌ m k w = continue k (m w)

abbrev pub ◌>>◌ : {B : Type 0} → Talk (Unit {0}) → Talk B → Talk B
m >> k = m >>= λ _. k

abbrev pub pure : {A : Type 0} → A → Talk A
pure a w = said a w

abbrev pub throw : {A : Type 0} → SessionError → Talk A
throw e w = broke e w

-- `?` on a result of the core.
abbrev pub lift : {A : Type 0} → Result A → Talk A
lift (ok a) = pure a
lift (err e) = throw (core e)

-- A result of the core that also leaves tables.
abbrev pub commit_to : {A : Type 0} → Result (A × Db) → Talk A
commit_to (ok p) w = said p.0 (record w { tables = p.1 })
commit_to (err e) w = broke (core e) w

abbrev pub change : (Db → Db) → Talk (Unit {0})
change f w = said tt (record w { tables = f w.tables })

abbrev pub next_outage : List (Option LinkError) → Option LinkError
next_outage [] = none
next_outage (x ∷ xs) = x

abbrev pub later : {A : Type 0} → List A → List A
later [] = []
later (x ∷ xs) = xs

abbrev pub written : Frame → World → Option LinkError → Talked (Unit {0})
written f w none = said tt (record w { outages = later w.outages; sent = w.sent ++ (f ∷ []) })
written f w (some e) = broke (link e) (record w { outages = later w.outages })

-- `Link::write`
unfoldable pub write : Frame → Talk (Unit {0})
write f w = written f w (next_outage w.outages)

-- `Link::send`
unfoldable pub send : Message → Talk (Unit {0})
unfolding write new_frame
send m = write (new_frame m)

abbrev pub taken : World → LinkReading → Talked Frame
taken w (received f rest) = said f (record w { incoming = rest })
taken w (failed e) = broke (link e) (record w { incoming = [] })

-- `Link::read`; a link that failed is not read again.
unfoldable pub receive : Talk Frame
receive w = taken w (read w.incoming)

abbrev pub next_lull : List Bool → Bool
next_lull [] = false
next_lull (x ∷ xs) = x

-- `Link::keepalive`
unfoldable pub keep_alive : Talk (Unit {0})
unfolding send
keep_alive w =
    if next_lull w.lulls
    then send heartbeat (record w { lulls = later w.lulls })
    else said tt (record w { lulls = later w.lulls })

-- A call of the core on the tables; and one on a file, an outgoing or an incoming asset.
abbrev pub stored : {A : Type 0} → (Db → Result (A × Db)) → Talk A
stored f w = commit_to (f w.tables) w

abbrev pub ran : {S A : Type 0} → Run S A → Talk (A × S)
ran (done a s) = pure (a, s)
ran (fail e s) = throw (core e)

-- `let _ = m`: an error is dropped.
abbrev pub ignored : Talked (Unit {0}) → Talked (Unit {0})
ignored (said _ w) = said tt w
ignored (broke _ w) = said tt w

abbrev pub attempt : Talk (Unit {0}) → Talk (Unit {0})
attempt m w = ignored (m w)
