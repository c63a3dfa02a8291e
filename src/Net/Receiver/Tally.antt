-- ===== src/Net/Receiver/Tally.antt =====
-- What a receiving session of crates/net/src/orchestrator.rs reports and keeps.
use photosync.Prelude.{
  ℕ, ◌≡◌, refl, ◌∙◌, ap, Bool, true, false, Option, none, some, String, arith, any, Bool-cases, inl,
  inr,
}
use photosync.Prelude.Bytes.{Bytes, bytes_eq}
use photosync.Errors.{Result, ok, err, Run, done, fail}
use photosync.Model.{Hash32, AssetDescriptor}
use photosync.Staging.{File}
use photosync.Identity.{Sha256}
use photosync.Chunk.{
  ChunkVerdict, accepted, corrupt, misaligned, FinishVerdict, verified, mismatch, short,
}
use photosync.Chunk.Receiver.{InboundAsset, finish_asset, accept_chunk}
use photosync.Proto.{Frame, asset_ack, AssetOutcome, committed, already_present, new_frame}
use photosync.Db.{Db, ReceivedRow}
use photosync.Inbound.{
  InboundState, holds_full_hash, record_received, close, reset, advance, open_transfer,
}
use photosync.Inbound.Have.{holds_full_hash-record_received, open_transfer_keeps}
use photosync.Net.Orchestrator.{
  Active, Handled, replied, silent, ended, judged, on_chunk, on_asset_begin, opened, started,
}
use photosync.Net.Orchestrator.Finishing.{
  Totals, Finished, acknowledged, broken, skipped, counted, discarded, closed, published,
  on_verified, on_verdict, on_asset_end,
}

-- An acknowledgement that an asset was added to the library, or was there already.
abbrev pub is_committed : Frame → Bool
is_committed f = elim f.message [
  | asset_ack o ↦ elim o [ committed ↦ true | _ ↦ false ]
  | _ ↦ false
]

abbrev pub is_present : Frame → Bool
is_present f = elim f.message [
  | asset_ack o ↦ elim o [ already_present ↦ true | _ ↦ false ]
  | _ ↦ false
]

-- Nothing that was held is forgotten.
abbrev pub Grows : Db → Db → Type 0
Grows t t' = (full : Hash32) → holds_full_hash t full ≡ true → holds_full_hash t' full ≡ true

abbrev pub Credits : Totals → AssetOutcome → Totals → Type 0
Credits n committed n' = (size : ℕ) × (n' ≡ counted size n)
Credits n already_present n' = n' ≡ skipped n
Credits n _ n' = n' ≡ n

-- What the end of an asset leaves.
abbrev pub Fair : Db → Totals → Finished → Type 0
Fair t n (acknowledged o t' n') = Grows t t' × Credits n o n'
Fair t n (broken e t') = Grows t t'

module _ (sid : String) (peer now : ℕ) (x : AssetDescriptor) (t : Db) (n : Totals) where
  closed-Fair :
      (full : Hash32) (r : Result Db)
      → ((t' : Db) → r ≡ ok t' → Grows t t')
      → Fair t n (closed sid x.quick_hash x.size t n r)
  unfolding holds_full_hash close
  closed-Fair full (err e) h = λ f z. z
  closed-Fair full (ok t') h = (h t' refl, (x.size, refl))

  published-Fair :
      (full : Hash32) (commit : Option String) → Fair t n (published sid peer now full x commit t n)
  published-Fair full none = λ f z. z
  published-Fair full (some pid) =
      closed-Fair full (record_received t full x.quick_hash x.size (some pid) (some peer) now)
        (λ t' e f z.
          holds_full_hash-record_received t t' full x.quick_hash f x.size (some pid) (some peer) now
            e
          ∙ ground (arith, z))

  module _ (abandon : Option (Unit {0})) (commit : Option String) where
    verified-Fair : (full : Hash32) → Fair t n (on_verified sid peer now x abandon commit t n full)
    unfolding holds_full_hash close
    verified-Fair full = elim (Bool-cases (holds_full_hash t full)) [
      | inl known ↦ rw known (present abandon)
      | inr new ↦ rw new (published-Fair full commit)
    ]
      where
        present :
            (a : Option (Unit {0}))
            → Fair t n
                (discarded a AssetOutcome.already_present t (close t sid x.quick_hash) (skipped n))
        present none = λ f z. z
        present (some _) = (λ f z. z, refl)

    refused-Fair :
        (a : Option (Unit {0}))
        → Fair t n (discarded a AssetOutcome.hash_mismatch t (reset t sid x.quick_hash now) n)
    unfolding holds_full_hash reset
    refused-Fair none = λ f z. z
    refused-Fair (some _) = (λ f z. z, refl)

    verdict-Fair :
        (r : Result (FinishVerdict × File))
        → Fair t n (on_verdict sid peer now x abandon commit t n r)
    verdict-Fair (err e) = λ f z. z
    verdict-Fair (ok (verified full, f)) = verified-Fair full
    verdict-Fair (ok (mismatch a b, f)) = refused-Fair abandon
    verdict-Fair (ok (short a b, f)) = refused-Fair abandon

pub end-Fair :
    (d : Sha256) (sid : String) (peer now : ℕ) (t : Db) (current : Option (Active d)) (n : Totals)
    (declared : Hash32) (abandon : Option (Unit {0})) (commit : Option String)
    → Fair t n (
        on_asset_end d sid peer now
          (record { tables = t; current = current })
          n
          declared
          abandon
          commit)
unfolding on_asset_end
end-Fair d sid peer now t none n declared abandon commit = λ f z. z
end-Fair d sid peer now t (some a) n declared abandon commit =
    verdict-Fair sid peer now a.descriptor t n abandon commit (finish_asset d a.asset declared)

-- A handler that acknowledges no asset.
abbrev pub Plain : {d : Sha256} → Db → Handled d → Type 0
Plain t (replied m s) =
    Grows t s.tables × (is_committed (new_frame m) ≡ false) × (is_present (new_frame m) ≡ false)
Plain t (silent s) = Grows t s.tables
Plain t (ended e s) = Grows t s.tables

module _ (d : Sha256) (sid : String) (now : ℕ) (t : Db) where
  judged-Plain :
      (offset : ℕ) (a : Active d) (r : Run (InboundAsset d) ChunkVerdict)
      → Plain t (judged d sid now offset t a r)
  unfolding judged holds_full_hash advance new_frame
  judged-Plain offset a (done (accepted k) b) = (λ f z. z, refl, refl)
  judged-Plain offset a (done corrupt b) = (λ f z. z, refl, refl)
  judged-Plain offset a (done (misaligned k) b) = (λ f z. z, refl, refl)
  judged-Plain offset a (fail e b) = λ f z. z

  pub chunk-Plain :
      (current : Option (Active d)) (offset : ℕ) (hash : Hash32) (payload : Bytes)
      → Plain t (on_chunk d sid now (record { tables = t; current = current }) offset hash payload)
  unfolding on_chunk
  chunk-Plain none offset hash payload = λ f z. z
  chunk-Plain (some a) offset hash payload =
      judged-Plain offset a
        (accept_chunk d a.asset (record { offset = offset; payload = payload; hash = hash }))

  open_transfer-Grows :
      (quick : Hash32) (ref : String) (total : ℕ) (p : InboundState × Db)
      → open_transfer t sid quick ref total now ≡ ok p
      → Grows t p.1
  unfolding holds_full_hash
  open_transfer-Grows quick ref total p e full z =
      ap (any (λ (r : ReceivedRow). bytes_eq r.full_hash full.bytes))
        (open_transfer_keeps t sid quick ref total now p e)
      ∙ z

  started-Plain :
      (x : AssetDescriptor) (ref : String) (current : Option (Active d)) (t' : Db)
      (r : Run File (InboundAsset d))
      → Grows t t'
      → Plain t (started d x ref (record { tables = t; current = current }) t' r)
  started-Plain x ref current t' (done a f) h = h
  started-Plain x ref current t' (fail e f) h = h

  opened-Plain :
      (usize_mod : ℕ) (x : AssetDescriptor) (ref : String) (file : File)
      (current : Option (Active d)) (r : Result (InboundState × Db))
      → ((p : InboundState × Db) → r ≡ ok p → Grows t p.1)
      → Plain t (opened d usize_mod x ref file (record { tables = t; current = current }) r)
  opened-Plain usize_mod x ref file current (err e) h = λ f z. z
  opened-Plain usize_mod x ref file current (ok p) h = started-Plain x ref current p.1 _ (h p refl)

  pub begin-Plain :
      (usize_mod : ℕ) (current : Option (Active d)) (x : AssetDescriptor) (ref : String)
      (file : File)
      → Plain t
          (on_asset_begin d usize_mod sid now (record { tables = t; current = current }) x ref file)
  unfolding on_asset_begin
  begin-Plain usize_mod current x ref file =
      opened-Plain usize_mod x ref file current (open_transfer t sid x.quick_hash ref x.size now)
        (open_transfer-Grows x.quick_hash ref x.size)
