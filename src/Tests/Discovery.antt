-- ===== src/Tests/Discovery.antt =====
-- Candidates of crates/net/src/discovery.rs: two devices, one of which is heard twice.
use photosync.Prelude.{
  ℕ, ◌≡◌, refl, true, false, none, some, List, [], ◌∷◌, ◌<◌, map, keep, length, ◌==◌,
}
use photosync.Prelude.Bytes.{bytes_eq}
use photosync.Model.{Hash32, hash_eq}
use photosync.Net.Discovery.{
  Ipv4Addr, v4, Announcement, Candidate, Parse, Net, announces, leads, is_group, group_by_peer,
  known_addr, listen, heard_from, scan_subnet, scan_hosts, scanned, numbers_from, scan_concurrency,
}
use photosync.Net.Discovery.Peers.{one_group, is_scanned, alone, group_by_peer_groups}
use photosync.Net.Discovery.Heard.{Apart, listen_finds}
use photosync.Net.Discovery.Scans.{targets, scan_subnet_finds}

abbrev fingerprint : ℕ → Hash32
fingerprint n = record { bytes = n ∷ [] }

abbrev host : ℕ → Ipv4Addr
host n = record { a = 192; b = 168; c = 1; d = n }

abbrev phone : ℕ → Announcement
phone n = record { v = 1; port = 53411; fp = fingerprint n; name = "phone"; platform = "android" }

abbrev heard_at : ℕ → ℕ → Candidate
heard_at n k = record {
  addr = record { ip = v4 (host k); port = 53411 };
  announced = some (phone n);
}

abbrev candidates : List Candidate
candidates =
    heard_at 7 16
    ∷ record { addr = record { ip = v4 (host 9); port = 53411 }; announced = none }
    ∷ heard_at 8 17
    ∷ heard_at 7 18
    ∷ []

groups_example :
    (keep (is_group (fingerprint 7)) (group_by_peer candidates)
      ≡ one_group (keep (announces (fingerprint 7)) candidates))
    × (keep (leads is_scanned) (group_by_peer candidates) ≡ map alone (keep is_scanned candidates))
groups_example = group_by_peer_groups (fingerprint 7) candidates

-- A datagram of one byte announces the device of that number.
abbrev parse : Parse
parse [] = none
parse (n ∷ rest) = some (phone n)

others : hash_eq (fingerprint 7) (fingerprint 8) ≡ false
unfolding hash_eq bytes_eq
others = refl

listen_example :
    (found : List Candidate) × (listen parse
        (fingerprint 8)
        2
        (([], v4 (host 3)) ∷ (8 ∷ [], v4 (host 8)) ∷ (7 ∷ [], v4 (host 16)) ∷ [])
      ≡ heard_from found)
    × Apart (fingerprint 8) found
    × (known_addr (record { ip = v4 (host 16); port = 53411 }) found ≡ true)
listen_example =
    listen_finds parse (fingerprint 8) 1 (([], v4 (host 3)) ∷ (8 ∷ [], v4 (host 8)) ∷ []) []
      (7 ∷ []) (v4 (host 16)) (phone 7) refl others refl

abbrev net : Net
net addr = elim addr.ip [ v4 x ↦ x.d == 16 | _ ↦ false ]

scan_example :
    (scan_subnet net (host 2) 53411
      ≡ map scanned (keep net (targets (host 2) 53411 (numbers_from 0 256))))
    × (length
          (scan_hosts net
            (host 2)
            53411
            (numbers_from 0 60)
            (record { in_flight = []; found = [] })).in_flight
        < scan_concurrency)
scan_example = scan_subnet_finds net (host 2) 53411 60
