-- ===== src/Pairing/Proofs.antt =====
-- What a proof of crates/core/src/pairing.rs binds.
use photosync.Prelude.{◌≡◌, ◌≢◌, refl, ◌∙◌, ap, sym, ◌↔◌, true, arith, length, append-injective}
use photosync.Prelude.Bytes.{Bytes, be16}
use photosync.Errors.{ok}
use photosync.Model.{Hash32, IsHash, hash_len}
use photosync.Proto.{protocol_major}
use photosync.Pairing.{
  Hmac, IsExact, AuthChallenge, ProofRole, PairingCode, transcript, label, derive_key, proof,
  verify_proof,
}

-- Fingerprints and nonce have their fixed widths.
pub record IsWide (c : AuthChallenge) : Type 0 where
  pub sender_wide : IsHash c.sender_fingerprint
  pub receiver_wide : IsHash c.receiver_fingerprint
  pub nonce_wide : length c.nonce ≡ hash_len

abbrev pub Same : AuthChallenge → AuthChallenge → Type 0
Same a b =
    (a.sender_fingerprint ≡ b.sender_fingerprint)
    × (a.receiver_fingerprint ≡ b.receiver_fingerprint)
    × (a.nonce ≡ b.nonce)

label-injective : (r s : ProofRole) → label r ≡ label s → r ≡ s
unfolding label
label-injective ProofRole.sender ProofRole.sender e = refl
label-injective ProofRole.sender ProofRole.receiver e = cc
label-injective ProofRole.receiver ProofRole.sender e = cc
label-injective ProofRole.receiver ProofRole.receiver e = refl

-- With fields of their fixed widths, the bytes under the MAC determine every field and the role,
-- with no length prefix between them.
pub transcript-injective :
    (a b : AuthChallenge) (r s : ProofRole)
    → IsWide a
    → IsWide b
    → transcript a r ≡ transcript b s
    → Same a b × (r ≡ s)
unfolding transcript
transcript-injective a b r s v w e =
    let (_, e₁) = append-injective (be16 protocol_major) (be16 protocol_major) _ _ refl e in
    let (sent, e₂) =
      append-injective a.sender_fingerprint.bytes b.sender_fingerprint.bytes _ _
        (v.sender_wide ∙ sym w.sender_wide) e₁ in
    let (got, e₃) =
      append-injective a.receiver_fingerprint.bytes b.receiver_fingerprint.bytes _ _
        (v.receiver_wide ∙ sym w.receiver_wide) e₂ in
    let (nonce, e₄) = append-injective a.nonce b.nonce _ _ (v.nonce_wide ∙ sym w.nonce_wide) e₃ in
    (
      ((λ i. record { bytes = sent i }), (λ i. record { bytes = got i }), nonce),
      label-injective r s e₄,
    )

module _ (h : Hmac) (x : IsExact h) where
  -- A proof verifies exactly when it is the one that the honest side computes.
  pub verify_proof-proof :
      (c : AuthChallenge) (code : PairingCode) (role : ProofRole) (presented : Hash32)
      → (verify_proof h c code role presented ≡ ok tt) ↔ (presented ≡ proof h c code role)
  unfolding verify_proof proof
  verify_proof-proof c code role presented = (
    (λ e i. record { bytes = (sym (exact_here.0 (ground arith))) i }),
    λ e. let t = exact_here.1 (sym (ap (λ (p : Hash32). p.bytes) e)) in ground arith,
  )
    where
      exact_here :
          (h.verify_slice (derive_key h code c.nonce) (transcript c role) presented.bytes ≡ true)
          ↔ (h.mac (derive_key h code c.nonce) (transcript c role) ≡ presented.bytes)
      exact_here = x.exact (derive_key h code c.nonce) (transcript c role) presented.bytes

  -- Two inputs of the MAC that differ, with one tag under one key.
  abbrev pub Collision : Bytes → Bytes → Bytes → Type 0
  Collision key m n = (m ≢ n) × (h.mac key m ≡ h.mac key n)

  -- With an exact MAC check and fields of their fixed widths, a proof made for other certificates or
  -- for the other role, under the same nonce and code, is accepted only through a collision of the
  -- MAC.
  pub verify_proof-Collision :
      (a b : AuthChallenge) (code : PairingCode) (r s : ProofRole)
      → IsWide a
      → IsWide b
      → a.nonce ≡ b.nonce
      → ¬ (Same a b × (r ≡ s))
      → verify_proof h b code s (proof h a code r) ≡ ok tt
      → Collision (derive_key h code b.nonce) (transcript a r) (transcript b s)
  unfolding proof
  verify_proof-Collision a b code r s v w n differ e = (
    (λ same. differ (transcript-injective a b r s v w same)),
    ap (λ (k : Bytes). h.mac (derive_key h code k) (transcript a r)) (sym n)
        ∙ ap (λ (p : Hash32). p.bytes) ((verify_proof-proof b code s (proof h a code r)).0 e),
  )
