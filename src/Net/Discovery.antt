-- ===== src/Net/Discovery.antt =====
-- crates/net/src/discovery.rs: which announcements make a candidate, the scan of a subnet, and the
-- candidates by peer. Sockets are I/O: the interfaces, the datagrams that arrive in time and what a
-- probe finds are arguments; the JSON of an announcement is serde_json's, a parameter.
pub mod Heard
pub mod Groups
pub mod Peers
pub mod Scans
use photosync.Prelude.{
  ℕ, zero, suc, ◌+◌, ◌==◌, Bool, true, false, not, ◌&&◌, ◌||◌, Option, none, some, List, [], ◌∷◌,
  ◌++◌, map, String, ltb, leb, any, keep, take, length, sort_by, if◌then◌else◌,
}
use photosync.Prelude.Bytes.{Bytes}
use photosync.Errors.{Result}
use photosync.Model.{Hash32, hash_eq}
use photosync.Proto.{protocol_major}

pub record Ipv4Addr : Type 0 where
  pub a : ℕ
  pub b : ℕ
  pub c : ℕ
  pub d : ℕ

pub data IpAddr : Type 0 where
  v4 : Ipv4Addr → IpAddr
  v6 : Bytes → IpAddr

pub record SocketAddr : Type 0 where
  pub ip : IpAddr
  pub port : ℕ

abbrev pub default_port : ℕ
default_port = 53411

abbrev pub scan_concurrency : ℕ
scan_concurrency = 50

abbrev pub max_interfaces : ℕ
max_interfaces = 3

pub record Announcement : Type 0 where
  pub v : ℕ
  pub port : ℕ
  pub fp : Hash32
  pub name : String
  pub platform : String

pub record Candidate : Type 0 where
  pub addr : SocketAddr
  pub announced : Option Announcement

pub data DiscoveryError : Type 0 where
  io no_interface : DiscoveryError

unfoldable pub ipv4_eq : Ipv4Addr → Ipv4Addr → Bool
ipv4_eq x y = (x.a == y.a) && (x.b == y.b) && (x.c == y.c) && (x.d == y.d)

abbrev pub bytes_same : Bytes → Bytes → Bool
bytes_same [] [] = true
bytes_same (x ∷ xs) (y ∷ ys) = (x == y) && bytes_same xs ys
bytes_same _ _ = false

unfoldable pub ip_eq : IpAddr → IpAddr → Bool
unfolding ipv4_eq
ip_eq (v4 x) (v4 y) = ipv4_eq x y
ip_eq (v6 x) (v6 y) = bytes_same x y
ip_eq _ _ = false

unfoldable pub addr_eq : SocketAddr → SocketAddr → Bool
unfolding ip_eq
addr_eq x y = ip_eq x.ip y.ip && (x.port == y.port)

-- `Ipv4Addr::is_loopback`
abbrev pub is_loopback : Ipv4Addr → Bool
is_loopback x = x.a == 127

-- The `filter_map` of `local_ipv4`.
abbrev pub usable : Bool → List IpAddr → List Ipv4Addr
usable loop [] = []
usable loop (v6 x ∷ rest) = usable loop rest
usable loop (v4 x ∷ rest) =
    let others = usable loop rest in if is_loopback x && not loop then others else x ∷ others

-- `Ord` of an address: by its bytes.
abbrev pub before : Ipv4Addr → Ipv4Addr → Bool
before x y =
    ltb x.a y.a
    || ((x.a == y.a)
        && (ltb x.b y.b || ((x.b == y.b) && (ltb x.c y.c || ((x.c == y.c) && ltb x.d y.d)))))

-- `dedup`: an element goes when it equals the one kept before it.
abbrev pub dedup_from : Ipv4Addr → List Ipv4Addr → List Ipv4Addr
dedup_from x [] = x ∷ []
dedup_from x (y ∷ ys) =
    let rest = dedup_from y ys in
    let same = dedup_from x ys in if ipv4_eq x y then same else x ∷ rest

abbrev pub dedup : List Ipv4Addr → List Ipv4Addr
dedup [] = []
dedup (x ∷ xs) = dedup_from x xs

abbrev pub is_gateway : Ipv4Addr → Bool
is_gateway x = x.d == 1

-- `local_ipv4`; a failure to list the interfaces leaves none.
unfoldable pub local_ipv4 : Option (List IpAddr) → Bool → List Ipv4Addr
unfolding ipv4_eq
local_ipv4 none loop = []
local_ipv4 (some ifaces) loop =
    sort_by (λ x y. not (is_gateway x) && is_gateway y)
      (dedup (sort_by before (usable loop ifaces)))

-- `serde_json::from_slice` at `Announcement`.
abbrev pub Parse : Type 0
Parse = Bytes → Option Announcement

abbrev pub announced_at : IpAddr → Announcement → Candidate
announced_at from ann = record {
  addr = record { ip = from; port = ann.port };
  announced = some ann;
}

abbrev pub known_addr : SocketAddr → List Candidate → Bool
known_addr addr found = any (λ (c : Candidate). addr_eq c.addr addr) found

-- The body of the loop of `listen`, on a datagram that parses or does not.
unfoldable pub heard : Hash32 → List Candidate → IpAddr → Option Announcement → List Candidate
unfolding addr_eq
heard own found from none = found
heard own found from (some ann) =
    if hash_eq ann.fp own
    then found
    else if not (ann.v == protocol_major)
    then found
    else if known_addr (record { ip = from; port = ann.port }) found
    then found
    else found ++ (announced_at from ann ∷ [])

-- The loop of `listen`, on the datagrams that arrive before the deadline.
unfoldable pub hear_all : Parse → Hash32 → List Candidate → List (Bytes × IpAddr) → List Candidate
unfolding heard
hear_all parse own found [] = found
hear_all parse own found ((bytes, from) ∷ later) =
    hear_all parse own (heard own found from (parse bytes)) later

pub data Listened : Type 0 where
  heard_from : List Candidate → Listened
  failed : DiscoveryError → Listened

-- `listen`, with the number of sockets that could be bound.
unfoldable pub listen : Parse → Hash32 → ℕ → List (Bytes × IpAddr) → Listened
unfolding hear_all
listen parse own zero datagrams = failed no_interface
listen parse own (suc sockets) datagrams = heard_from (hear_all parse own [] datagrams)

-- What a probe of an address finds.
abbrev pub Net : Type 0
Net = SocketAddr → Bool

abbrev pub scanned : SocketAddr → Candidate
scanned addr = record { addr = addr; announced = none }

-- `drain`: the probes in flight end, and those that were accepted are candidates.
unfoldable pub drain : Net → List SocketAddr → List Candidate → List Candidate
drain net [] found = found
drain net (addr ∷ rest) found =
    drain net rest (if net addr then found ++ (scanned addr ∷ []) else found)

abbrev pub host_addr : Ipv4Addr → ℕ → ℕ → SocketAddr
host_addr interface port host = record { ip = v4 (record interface { d = host }); port = port }

-- The probes in flight, and the candidates.
pub record Scan : Type 0 where
  pub in_flight : List SocketAddr
  pub found : List Candidate

-- `if in_flight.len() >= SCAN_CONCURRENCY`
abbrev pub drained_at : ℕ → Net → Scan → Scan
drained_at limit net s =
    if leb limit (length s.in_flight)
    then record { in_flight = []; found = drain net s.in_flight s.found }
    else s

-- A round of the loop of `scan_subnet`.
unfoldable pub scan_host : Net → Ipv4Addr → ℕ → ℕ → Scan → Scan
unfolding drain ipv4_eq
scan_host net interface port host s =
    if ipv4_eq (record interface { d = host }) interface
    then s
    else drained_at scan_concurrency net
        (record s { in_flight = s.in_flight ++ (host_addr interface port host ∷ []) })

unfoldable pub scan_hosts : Net → Ipv4Addr → ℕ → List ℕ → Scan → Scan
unfolding scan_host
scan_hosts net interface port [] s = s
scan_hosts net interface port (host ∷ hosts) s =
    scan_hosts net interface port hosts (scan_host net interface port host s)

abbrev pub numbers_from : ℕ → ℕ → List ℕ
numbers_from k zero = []
numbers_from k (suc n) = k ∷ numbers_from (k + 1) n

-- `scan_subnet`: 0 to 255.
unfoldable pub scan_subnet : Net → Ipv4Addr → ℕ → List Candidate
unfolding scan_hosts drain
scan_subnet net interface port =
    (let s =
        scan_hosts net interface port (numbers_from 0 256)
          (record { in_flight = []; found = [] }) in
      drain net s.in_flight s.found)

unfoldable pub scan_all : Net → ℕ → List Ipv4Addr → List Candidate
unfolding scan_subnet
scan_all net port [] = []
scan_all net port (ip ∷ ips) = scan_subnet net ip port ++ scan_all net port ips

abbrev scanned_from : Net → ℕ → List Ipv4Addr → Listened
scanned_from net port [] = failed no_interface
scanned_from net port (ip ∷ ips) = heard_from (scan_all net port (ip ∷ ips))

abbrev escalated : Net → ℕ → List Ipv4Addr → Listened → Listened
escalated net port ips (failed e) = failed e
escalated net port ips (heard_from (c ∷ cs)) = heard_from (c ∷ cs)
escalated net port ips (heard_from []) = scanned_from net port ips

-- `discover_staged`, with the interfaces as they are when the scan begins.
unfoldable pub discover_staged :
    Parse → Net → Hash32 → ℕ → ℕ → List (Bytes × IpAddr) → List Ipv4Addr → Listened
unfolding listen scan_all
discover_staged parse net own port sockets datagrams interfaces =
    escalated net port (take max_interfaces interfaces) (listen parse own sockets datagrams)

-- The candidate was announced with this certificate.
abbrev pub announces : Hash32 → Candidate → Bool
announces fp c = elim c.announced [ none ↦ false | some a ↦ hash_eq a.fp fp ]

-- The test of `g.first()`.
abbrev pub leads : (Candidate → Bool) → List Candidate → Bool
leads p [] = false
leads p (c ∷ cs) = p c

abbrev pub is_group : Hash32 → List Candidate → Bool
is_group fp = leads (announces fp)

-- The first group of this certificate grows, or a new one is added behind all.
unfoldable pub join_group : Hash32 → Candidate → List (List Candidate) → List (List Candidate)
join_group fp c [] = (c ∷ []) ∷ []
join_group fp c (g ∷ gs) =
    let rest = join_group fp c gs in if is_group fp g then (g ++ (c ∷ [])) ∷ gs else g ∷ rest

-- A round of the loop of `group_by_peer`.
abbrev pub grouped_with :
    Candidate → Option Announcement → List (List Candidate) → List (List Candidate)
grouped_with c none groups = groups ++ ((c ∷ []) ∷ [])
grouped_with c (some a) groups = join_group a.fp c groups

unfoldable pub group_all : List (List Candidate) → List Candidate → List (List Candidate)
unfolding join_group
group_all groups [] = groups
group_all groups (c ∷ cs) = group_all (grouped_with c c.announced groups) cs

-- `group_by_peer`
unfoldable pub group_by_peer : List Candidate → List (List Candidate)
unfolding group_all
group_by_peer candidates = group_all [] candidates
