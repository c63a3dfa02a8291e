-- ===== src/Pairing/Budget.antt =====
-- The attempt budget of crates/core/src/pairing.rs over any sequence of presented proofs.
use photosync.Prelude.{
  ℕ, ◌+◌, ◌-◌, ◌≡◌, ◌≢◌, refl, ◌∙◌, ap, ◌≤◌, ◌↔◌, Bool, true, false, not, ◌&&◌, List, [], ◌∷◌,
  arith, if◌then◌else◌,
}
use photosync.Errors.{ok, err}
use photosync.Model.{Hash32}
use photosync.Pairing.{
  Hmac, AuthChallenge, ProofRole, PairingCode, CodeSession, Verdict, proved, verify, verify_proof,
  is_expired, is_live, with_code, max_attempts,
}

-- One proof presented to the receiver.
pub record Attempt : Type 0 where
  pub challenge : AuthChallenge
  pub role : ProofRole
  pub presented : Hash32
  pub now_ms : ℕ

module _ (h : Hmac) where
  abbrev pub answer : CodeSession → Attempt → Verdict × CodeSession
  answer s a = verify h s a.challenge a.role a.presented a.now_ms

  -- The session after a sequence of attempts.
  abbrev pub run : CodeSession → List Attempt → CodeSession
  run s [] = s
  run s (a ∷ rest) = run (answer s a).1 rest

  abbrev pub is_right : CodeSession → Attempt → Bool
  is_right s a = elim (verify_proof h a.challenge s.code a.role a.presented) [
    | ok _ ↦ true
    | err _ ↦ false
  ]

  -- A guess that counts: the code had not expired, and the proof was wrong.
  abbrev pub is_wrong_guess : CodeSession → Attempt → Bool
  is_wrong_guess s a = not (is_expired s a.now_ms) && not (is_right s a)

  abbrev pub wrong_guesses : CodeSession → List Attempt → ℕ
  wrong_guesses s [] = 0
  wrong_guesses s (a ∷ rest) =
      let later = wrong_guesses s rest in if is_wrong_guess s a then later + 1 else later

  -- An attempt succeeds exactly when the code is live and the proof is right.
  pub verify-proved :
      (s : CodeSession) (a : Attempt)
      → ((answer s a).0 ≡ proved) ↔ ((is_live s a.now_ms ≡ true) × (is_right s a ≡ true))
  unfolding verify is_live
  verify-proved s a = ground arith

  -- `s` with its budget less the guesses charged to it.
  abbrev pub charged : CodeSession → ℕ → CodeSession
  charged s n = record s { attempts_left = s.attempts_left - n }

  pub answer-charged :
      (s : CodeSession) (a : Attempt)
      → (answer s a).1 ≡ charged s (if is_wrong_guess s a then 1 else 0)
  unfolding verify
  answer-charged s a = ground arith

  -- Which guesses are wrong does not depend on the budget.
  wrong_guesses-charged :
      (s : CodeSession) (n : ℕ) (attempts : List Attempt)
      → wrong_guesses (charged s n) attempts ≡ wrong_guesses s attempts
  unfolding is_expired
  wrong_guesses-charged s n [] = refl
  wrong_guesses-charged s n (a ∷ rest) =
      ap (λ (k : ℕ). if is_wrong_guess s a then k + 1 else k) (wrong_guesses-charged s n rest)

  -- Whatever is presented, in whatever order and by whomever, the budget falls by exactly the wrong
  -- guesses made before the code expired, and nothing gives any of it back.
  pub run-charged :
      (s : CodeSession) (attempts : List Attempt)
      → run s attempts ≡ charged s (wrong_guesses s attempts)
  run-charged s [] = λ i. record s {
    attempts_left = (let e : s.attempts_left ≡ s.attempts_left - 0 = omega arith in e) i;
  }
  run-charged s (a ∷ rest) =
      ap (λ (t : CodeSession). run t rest) (answer-charged s a)
      ∙ run-charged (charged s g) rest
      ∙ (λ i. record s { attempts_left = total i })
    where
      g : ℕ
      g = if is_wrong_guess s a then 1 else 0

      total :
          s.attempts_left - g - wrong_guesses (charged s g) rest
          ≡ s.attempts_left - wrong_guesses s (a ∷ rest)
      total = ground (arith, wrong_guesses-charged s g rest)

  -- Once three wrong guesses or more were made against a new code, no later proof succeeds, the
  -- right one included.
  pub three_strikes :
      (code : PairingCode) (now_ms : ℕ) (attempts : List Attempt) (a : Attempt)
      → max_attempts ≤ wrong_guesses (with_code code now_ms) attempts
      → (answer (run (with_code code now_ms) attempts) a).0 ≢ proved
  unfolding with_code is_live
  three_strikes code now_ms attempts a enough e =
      let live = ((verify-proved (run s attempts) a).0 e).0 in
      ground (arith, live, ap (λ (t : CodeSession). t.attempts_left) (run-charged s attempts))
    where
      s : CodeSession
      s = with_code code now_ms
