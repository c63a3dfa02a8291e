-- ===== src/Tests/Codes.antt =====
-- Pairing codes and proofs of crates/core/src/pairing.rs at concrete inputs. The MAC of a message under
-- a key is the two, one after the other.
use photosync.Prelude.{ℕ, ◌≡◌, ◌≢◌, refl, ◌≤◌, List, [], ◌∷◌, ◌++◌, arith, replicate}
use photosync.Prelude.Bytes.{Bytes, bytes_eq, bytes_eq_iff}
use photosync.Errors.{ok}
use photosync.Model.{Hash32}
use photosync.Pairing.{
  Hmac, IsExact, AuthChallenge, ProofRole, PairingCode, CodeSession, proved, transcript, derive_key,
  proof, verify_proof, is_expired, with_code, max_attempts,
}
use photosync.Pairing.Codes.{IsCode}
use photosync.Pairing.Proofs.{IsWide, Same, Collision, transcript-injective, verify_proof-Collision}
use photosync.Pairing.Budget.{
  Attempt, answer, run, charged, wrong_guesses, run-charged, three_strikes,
}

abbrev pub joined : Hmac
joined = record { mac = λ key m. key ++ m; verify_slice = λ key m tag. bytes_eq (key ++ m) tag }

pub joined-IsExact : IsExact joined
joined-IsExact = record { exact = λ key m tag. bytes_eq_iff (key ++ m) tag }

abbrev pub wide : ℕ → Bytes
wide b = replicate 32 b

abbrev challenge : AuthChallenge
challenge = record {
  nonce = wide 1;
  sender_fingerprint = record { bytes = wide 2 };
  receiver_fingerprint = record { bytes = wide 3 };
}

challenge-IsWide : IsWide challenge
challenge-IsWide = record { sender_wide = refl; receiver_wide = refl; nonce_wide = refl }

abbrev pub code : PairingCode
code = record { text = 52 ∷ 56 ∷ 49 ∷ 57 ∷ 50 ∷ 51 ∷ [] }

abbrev guess : Hash32
guess = record { bytes = [] }

abbrev attempt : ℕ → Attempt
attempt now = record {
  challenge = challenge;
  role = ProofRole.sender;
  presented = guess;
  now_ms = now;
}

abbrev pub session : CodeSession
session = record { code = code; issued_at_ms = 0; attempts_left = 3 }

run_example :
    run joined session (attempt 5 ∷ attempt 6 ∷ [])
    ≡ charged joined session (wrong_guesses joined session (attempt 5 ∷ attempt 6 ∷ []))
run_example = run-charged joined session (attempt 5 ∷ attempt 6 ∷ [])

abbrev guesses : List Attempt
guesses = attempt 5 ∷ attempt 6 ∷ attempt 7 ∷ []

wrong_guesses_three : wrong_guesses joined (with_code code 0) guesses ≡ 3
unfolding with_code verify_proof is_expired derive_key transcript bytes_eq
wrong_guesses_three = refl

three_guesses : max_attempts ≤ wrong_guesses joined (with_code code 0) guesses
three_guesses = omega (arith, wrong_guesses_three)

strikes_example : (answer joined (run joined (with_code code 0) guesses) (attempt 8)).0 ≢ proved
strikes_example = three_strikes joined code 0 guesses (attempt 8) three_guesses

transcript_example : Same challenge challenge × (ProofRole.sender ≡ ProofRole.sender)
transcript_example =
    transcript-injective challenge challenge ProofRole.sender ProofRole.sender challenge-IsWide
      challenge-IsWide refl

code-IsCode : IsCode code
code-IsCode = record { digits = refl; six = refl }

-- A MAC that has one tag for everything.
abbrev blind : Hmac
blind = record { mac = λ key m. []; verify_slice = λ key m tag. bytes_eq [] tag }

blind-IsExact : IsExact blind
blind-IsExact = record { exact = λ key m tag. bytes_eq_iff [] tag }

sender-receiver : ¬ (Same challenge challenge × (ProofRole.sender ≡ ProofRole.receiver))
sender-receiver p = cc (p.1)

accepted :
    verify_proof blind challenge code ProofRole.receiver
      (proof blind challenge code ProofRole.sender)
    ≡ ok tt
unfolding verify_proof proof bytes_eq
accepted = refl

forged_example :
    Collision blind blind-IsExact
      (derive_key blind code (wide 1))
      (transcript challenge ProofRole.sender)
      (transcript challenge ProofRole.receiver)
forged_example =
    verify_proof-Collision blind blind-IsExact challenge challenge code ProofRole.sender
      ProofRole.receiver challenge-IsWide challenge-IsWide refl sender-receiver accepted
