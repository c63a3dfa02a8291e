-- ===== src/Net/Discovery/Heard.antt =====
-- What the loop of `listen` in crates/net/src/discovery.rs leaves: candidates of other devices that speak
-- this protocol, one for each address.
use photosync.Prelude.{
  ℕ, suc, ◌&&◌, ◌≡◌, refl, ◌∙◌, ap, true, false, ◌==◌, Option, none, some, List, [], ◌∷◌, ◌++◌,
  arith, any, Bool-cases, inl, inr,
}
use photosync.Prelude.Rows.{any-append}
use photosync.Prelude.Bytes.{Bytes}
use photosync.Model.{Hash32, hash_eq}
use photosync.Proto.{protocol_major}
use photosync.Net.Discovery.{
  IpAddr, v4, v6, bytes_same, ip_eq, ipv4_eq, SocketAddr, Announcement, Candidate, Parse, addr_eq,
  known_addr, announced_at, heard, hear_all, listen, heard_from,
}

-- A candidate that may be offered.
abbrev pub IsFit : Hash32 → Candidate → Type 0
IsFit own c =
    (a : Announcement) × (c.announced ≡ some a)
    × (hash_eq a.fp own ≡ false)
    × (a.v ≡ protocol_major)
    × (c.addr.port ≡ a.port)

-- Fit candidates, no two at one address: each is at an address that none behind it has.
abbrev pub Apart : Hash32 → List Candidate → Type 0
Apart own [] = Unit {0}
Apart own (c ∷ cs) =
    IsFit own c × (any (λ (y : Candidate). addr_eq c.addr y.addr) cs ≡ false) × Apart own cs

Apart-append :
    (own : Hash32) (found : List Candidate) (c : Candidate)
    → Apart own found
    → IsFit own c
    → known_addr c.addr found ≡ false
    → Apart own (found ++ (c ∷ []))
Apart-append own [] c h fit new = (fit, refl, tt)
Apart-append own (x ∷ xs) c (fx, ax, rest) fit new = (
  fx,
  any-append (λ (y : Candidate). addr_eq x.addr y.addr) xs (c ∷ []) ∙ ground (arith, ax, new),
  Apart-append own xs c rest fit (ground (arith, new)),
)

heard-Apart :
    (own : Hash32) (found : List Candidate) (from : IpAddr) (ann : Option Announcement)
    → Apart own found
    → Apart own (heard own found from ann)
unfolding heard
heard-Apart own found from none h = h
heard-Apart own found from (some ann) h = elim (Bool-cases (hash_eq ann.fp own)) [
  | inl mine ↦ rw mine h
  | inr other ↦ elim (Bool-cases (ann.v == protocol_major)) [
    | inr foreign ↦ rw (other, foreign) h
    | inl speaks ↦ elim (Bool-cases (known_addr (record { ip = from; port = ann.port }) found)) [
      | inl again ↦ rw (other, speaks, again) h
      | inr new ↦
          rw (other, speaks, new)
            (Apart-append own found (announced_at from ann) h (ann, refl, other, ground arith, refl)
              new)
    ]
  ]
]

hear_all-Apart :
    (parse : Parse) (own : Hash32) (datagrams : List (Bytes × IpAddr)) (found : List Candidate)
    → Apart own found
    → Apart own (hear_all parse own found datagrams)
unfolding hear_all
hear_all-Apart parse own [] found h = h
hear_all-Apart parse own ((bytes, from) ∷ later) found h =
    hear_all-Apart parse own later (heard own found from (parse bytes))
      (heard-Apart own found from (parse bytes) h)

bytes_same_refl : (xs : Bytes) → bytes_same xs xs ≡ true
bytes_same_refl [] = refl
bytes_same_refl (x ∷ xs) = ground (arith, bytes_same_refl xs)

addr_eq_refl : (x : SocketAddr) → addr_eq x x ≡ true
unfolding addr_eq ip_eq ipv4_eq
addr_eq_refl x = on_ip x.ip
  where
    on_ip : (ip : IpAddr) → ip_eq ip ip && (x.port == x.port) ≡ true
    on_ip (v4 y) = ground arith
    on_ip (v6 y) = ground (arith, bytes_same_refl y)

-- An address that is known stays known.
heard-known :
    (own : Hash32) (found : List Candidate) (from : IpAddr) (ann : Option Announcement)
    (addr : SocketAddr)
    → known_addr addr found ≡ true
    → known_addr addr (heard own found from ann) ≡ true
unfolding heard
heard-known own found from none addr h = h
heard-known own found from (some ann) addr h = ground (
  arith,
  h,
  any-append (λ (c : Candidate). addr_eq c.addr addr) found (announced_at from ann ∷ []),
)

hear_all-known :
    (parse : Parse) (own : Hash32) (datagrams : List (Bytes × IpAddr)) (found : List Candidate)
    (addr : SocketAddr)
    → known_addr addr found ≡ true
    → known_addr addr (hear_all parse own found datagrams) ≡ true
unfolding hear_all
hear_all-known parse own [] found addr h = h
hear_all-known parse own ((bytes, from) ∷ later) found addr h =
    hear_all-known parse own later (heard own found from (parse bytes)) addr
      (heard-known own found from (parse bytes) addr h)

heard_now :
    (own : Hash32) (found : List Candidate) (from : IpAddr) (ann : Announcement)
    → hash_eq ann.fp own ≡ false
    → ann.v ≡ protocol_major
    → known_addr (record { ip = from; port = ann.port }) (heard own found from (some ann)) ≡ true
unfolding heard
heard_now own found from ann other speaks =
    elim (Bool-cases (known_addr (record { ip = from; port = ann.port }) found)) [
      | inl again ↦ rw (other, same, again) again
      | inr new ↦
          rw (other, same, new)
            (any-append (λ (c : Candidate). addr_eq c.addr (record { ip = from; port = ann.port }))
                found (announced_at from ann ∷ [])
              ∙ ground (arith, addr_eq_refl (record { ip = from; port = ann.port })))
    ]
  where
    same : (ann.v == protocol_major) ≡ true
    same = ground arith

heard_in_all :
    (parse : Parse) (own : Hash32) (earlier later : List (Bytes × IpAddr)) (bytes : Bytes)
    (from : IpAddr) (ann : Announcement) (found : List Candidate)
    → parse bytes ≡ some ann
    → hash_eq ann.fp own ≡ false
    → ann.v ≡ protocol_major
    → known_addr
        (record { ip = from; port = ann.port })
        (hear_all parse own found (earlier ++ ((bytes, from) ∷ later)))
      ≡ true
unfolding hear_all
heard_in_all parse own [] later bytes from ann found read other speaks =
    hear_all-known parse own later (heard own found from (parse bytes))
      (record { ip = from; port = ann.port })
      (ap
          (λ (o : Option Announcement).
            known_addr (record { ip = from; port = ann.port }) (heard own found from o))
          read
        ∙ heard_now own found from ann other speaks)
heard_in_all parse own ((b, f) ∷ earlier) later bytes from ann found read other speaks =
    heard_in_all parse own earlier later bytes from ann (heard own found f (parse b)) read other
      speaks

-- With a socket that could be bound, `listen` finds only other devices of this protocol, at the port
-- that they announce and no two at one address; and an announcement of such a device among the
-- datagrams that arrive in time, whatever else arrives, makes its address known.
pub listen_finds :
    (parse : Parse) (own : Hash32) (sockets : ℕ) (earlier later : List (Bytes × IpAddr))
    (bytes : Bytes) (from : IpAddr) (ann : Announcement)
    → parse bytes ≡ some ann
    → hash_eq ann.fp own ≡ false
    → ann.v ≡ protocol_major
    → (found : List Candidate) × (listen parse own
          (suc sockets)
          (earlier ++ ((bytes, from) ∷ later))
        ≡ heard_from found)
      × Apart own found
      × (known_addr (record { ip = from; port = ann.port }) found ≡ true)
unfolding listen
listen_finds parse own sockets earlier later bytes from ann read other speaks = (
  hear_all parse own [] (earlier ++ ((bytes, from) ∷ later)),
  refl,
  hear_all-Apart parse own (earlier ++ ((bytes, from) ∷ later)) [] tt,
  heard_in_all parse own earlier later bytes from ann [] read other speaks,
)
