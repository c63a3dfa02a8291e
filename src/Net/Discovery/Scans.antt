-- ===== src/Net/Discovery/Scans.antt =====
-- The batches of `scan_subnet` in crates/net/src/discovery.rs.
use photosync.Prelude.{
  ℕ, ◌≡◌, refl, ◌∙◌, ap, sym, ◌<◌, Bool, not, List, [], ◌∷◌, ◌++◌, map, arith, leb, length,
  append_assoc, append-nil, keep, Bool-cases, inl, inr,
}
use photosync.Prelude.Rows.{keep-append, keep-cons, keep-drop, map-append}
use photosync.Net.Discovery.{
  Ipv4Addr, SocketAddr, Candidate, Net, Scan, ipv4_eq, scanned, drain, host_addr, drained_at,
  scan_concurrency, scan_host, scan_hosts, numbers_from, scan_subnet,
}

-- The addresses of these hosts, without the interface's own.
abbrev pub targets : Ipv4Addr → ℕ → List ℕ → List SocketAddr
targets interface port hosts =
    map (host_addr interface port)
      (keep (λ (host : ℕ). not (ipv4_eq (record interface { d = host }) interface)) hosts)

drain-keep :
    (net : Net) (addrs : List SocketAddr) (found : List Candidate)
    → drain net addrs found ≡ found ++ map scanned (keep net addrs)
unfolding drain
drain-keep net [] found = sym (append-nil found)
drain-keep net (a ∷ addrs) found = elim (Bool-cases (net a)) [
  | inl e ↦ rw e (
      drain-keep net addrs (found ++ (scanned a ∷ []))
      ∙ append_assoc found (scanned a ∷ []) (map scanned (keep net addrs))
      ∙ ap (λ (xs : List SocketAddr). found ++ map scanned xs) (sym (keep-cons net a addrs e)))
  | inr e ↦ rw e (
      drain-keep net addrs found
      ∙ ap (λ (xs : List SocketAddr). found ++ map scanned xs) (sym (keep-drop net a addrs e)))
]

-- What the scan will have found once the probes in flight have ended.
abbrev outcome : Net → Scan → List Candidate
outcome net s = drain net s.in_flight s.found

-- Fewer probes are in flight than the limit, between two rounds.
abbrev pub Bounded : Scan → Type 0
Bounded s = length s.in_flight < scan_concurrency

drained-outcome :
    (net : Net) (s : Scan) → outcome net (drained_at scan_concurrency net s) ≡ outcome net s
unfolding drain
drained-outcome net s = elim (Bool-cases (leb scan_concurrency (length s.in_flight))) [
  | inl e ↦ rw e refl
  | inr e ↦ rw e refl
]

drained-Bounded : (net : Net) (s : Scan) → Bounded (drained_at scan_concurrency net s)
drained-Bounded net s = elim (Bool-cases (leb scan_concurrency (length s.in_flight))) [
  | inl e ↦ rw e (omega arith)
  | inr e ↦ rw e (ground arith)
]

launched :
    (net : Net) (s : Scan) (a : SocketAddr)
    → outcome net (record s { in_flight = s.in_flight ++ (a ∷ []) })
      ≡ outcome net s ++ map scanned (keep net (a ∷ []))
launched net s a =
    drain-keep net (s.in_flight ++ (a ∷ [])) s.found
    ∙ ap (λ (xs : List SocketAddr). s.found ++ map scanned xs)
        (keep-append net s.in_flight (a ∷ []))
    ∙ ap (λ (xs : List Candidate). s.found ++ xs)
        (map-append scanned (keep net s.in_flight) (keep net (a ∷ [])))
    ∙ sym (
        append_assoc s.found (map scanned (keep net s.in_flight)) (map scanned (keep net (a ∷ []))))
    ∙ ap (λ (xs : List Candidate). xs ++ map scanned (keep net (a ∷ [])))
        (sym (drain-keep net s.in_flight s.found))

module _ (net : Net) (interface : Ipv4Addr) (port : ℕ) where
  abbrev is_other : ℕ → Bool
  is_other host = not (ipv4_eq (record interface { d = host }) interface)

  host-outcome :
      (host : ℕ) (s : Scan)
      → Bounded s
      → Bounded (scan_host net interface port host s)
        × (outcome net (scan_host net interface port host s)
            ≡ outcome net s ++ map scanned (keep net (targets interface port (host ∷ []))))
  unfolding scan_host
  host-outcome host s h = elim (Bool-cases (ipv4_eq (record interface { d = host }) interface)) [
    | inl own ↦ rw own (
      h,
      sym (append-nil (outcome net s))
          ∙ ap
              (λ (hosts : List ℕ).
                outcome net s ++ map scanned (keep net (map (host_addr interface port) hosts)))
              (sym (keep-drop is_other host [] (ap not own))),
    )
    | inr other ↦ rw other (
      drained-Bounded net
          (record s { in_flight = s.in_flight ++ (host_addr interface port host ∷ []) }),
      drained-outcome net
            (record s { in_flight = s.in_flight ++ (host_addr interface port host ∷ []) })
          ∙ launched net s (host_addr interface port host)
          ∙ ap
              (λ (hosts : List ℕ).
                outcome net s ++ map scanned (keep net (map (host_addr interface port) hosts)))
              (sym (keep-cons is_other host [] (ap not other))),
    )
  ]

  hosts-outcome :
      (hosts : List ℕ) (s : Scan)
      → Bounded s
      → Bounded (scan_hosts net interface port hosts s)
        × (outcome net (scan_hosts net interface port hosts s)
            ≡ outcome net s ++ map scanned (keep net (targets interface port hosts)))
  unfolding scan_hosts
  hosts-outcome [] s h = (h, sym (append-nil (outcome net s)))
  hosts-outcome (host ∷ hosts) s h =
      (let (bounded, one) = host-outcome host s h in
        let (still, rest) = hosts-outcome hosts (scan_host net interface port host s) bounded in
        (
          still,
          rest
              ∙ ap
                  (λ (xs : List Candidate).
                    xs ++ map scanned (keep net (targets interface port hosts)))
                  one
              ∙ append_assoc (outcome net s)
                  (map scanned (keep net (targets interface port (host ∷ []))))
                  (map scanned (keep net (targets interface port hosts)))
              ∙ ap (λ (xs : List Candidate). outcome net s ++ xs) (one_more host hosts),
        ))
    where
      one_more :
          (k : ℕ) (ks : List ℕ)
          → map scanned (keep net (targets interface port (k ∷ [])))
              ++ map scanned (keep net (targets interface port ks))
            ≡ map scanned (keep net (targets interface port (k ∷ ks)))
      one_more k ks =
          sym (
            map-append scanned (keep net (targets interface port (k ∷ [])))
              (keep net (targets interface port ks)))
          ∙ ap (map scanned) (
              sym (keep-append net (targets interface port (k ∷ [])) (targets interface port ks))
              ∙ ap (keep net) (
                  sym (
                    map-append (host_addr interface port) (keep is_other (k ∷ []))
                      (keep is_other ks))
                  ∙ ap (map (host_addr interface port)) (sym (keep-append is_other (k ∷ []) ks))))

-- The scan of a subnet finds, in order, the hosts 0 to 255 that accept a connection, except the
-- interface itself; and between two of its rounds, after any number of hosts, fewer than fifty probes
-- are in flight: no batch loses a candidate.
pub scan_subnet_finds :
    (net : Net) (interface : Ipv4Addr) (port : ℕ) (n : ℕ)
    → (scan_subnet net interface port
        ≡ map scanned (keep net (targets interface port (numbers_from 0 256))))
      × (length
            (scan_hosts net interface port
              (numbers_from 0 n)
              (record { in_flight = []; found = [] })).in_flight
          < scan_concurrency)
unfolding scan_subnet drain
scan_subnet_finds net interface port n = (
  (hosts-outcome net interface port (numbers_from 0 256) (record { in_flight = []; found = [] })
      (omega arith)).1,
  (hosts-outcome net interface port (numbers_from 0 n) (record { in_flight = []; found = [] })
      (omega arith)).0,
)
