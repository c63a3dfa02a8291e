-- ===== src/Pairing.antt =====
-- crates/core/src/pairing.rs: the pairing code and the code-bound proofs. HMAC-SHA256 is the hmac
-- crate's, a parameter; random words are a list that the generator draws from. A code is its six
-- code points. Times are unix milliseconds after 1970.
pub mod Codes
pub mod Proofs
pub mod Budget
use photosync.Prelude.{
  ℕ, ◌+◌, ◌-◌, ◌*◌, ◌/◌, ◌%◌, ◌^◌, ◌≡◌, ◌↔◌, Bool, true, false, not, ◌&&◌, ◌||◌, Option, none, some,
  List, [], ◌∷◌, ◌++◌, map, ltb, leb, ◌==◌, if◌then◌else◌, length, take, drop, all, keep,
}
use photosync.Prelude.Bytes.{Bytes, be16}
use photosync.Errors.{Error, auth_failed, Result, ok, err}
use photosync.Model.{Hash32}
use photosync.Proto.{protocol_major}

abbrev pub code_digits : ℕ
code_digits = 6

abbrev pub max_attempts : ℕ
max_attempts = 3

abbrev pub code_ttl_ms : ℕ
code_ttl_ms = 5 * 60 * 1000

-- The text of a `PairingCode`.
pub record PairingCode : Type 0 where
  pub text : List ℕ

abbrev pub limit : ℕ
limit = 1000000

abbrev u32_max : ℕ
u32_max = 2 ^ 32 - 1

-- The largest multiple of `limit` that fits in u32.
abbrev pub bound : ℕ
bound = u32_max - u32_max % limit

-- `{:06}` of a number below a million.
unfoldable pub six_digits : ℕ → List ℕ
six_digits n =
    (48 + n / 100000 % 10)
    ∷ (48 + n / 10000 % 10)
    ∷ (48 + n / 1000 % 10)
    ∷ (48 + n / 100 % 10)
    ∷ (48 + n / 10 % 10)
    ∷ (48 + n % 10)
    ∷ []

-- `PairingCode::generate`, with the words not drawn; `none` while no word has been good.
unfoldable pub generate : List ℕ → Option (PairingCode × List ℕ)
unfolding six_digits
generate [] = none
generate (v ∷ words) = elim (ltb v bound) [
  | true ↦ some (record { text = six_digits (v % limit) }, words)
  | false ↦ generate words
]

-- `char::is_whitespace`: the characters with the property White_Space.
unfoldable pub is_whitespace : ℕ → Bool
is_whitespace c =
    (leb 9 c && leb c 13)
    || ((c == 32)
        || ((c == 0x85)
            || ((c == 0xa0)
                || ((c == 0x1680)
                    || ((leb 0x2000 c && leb c 0x200a)
                        || ((c == 0x2028)
                            || ((c == 0x2029)
                                || ((c == 0x202f) || ((c == 0x205f) || (c == 0x3000))))))))))

abbrev pub visible : ℕ → Bool
visible c = not (is_whitespace c)

-- The bytes that UTF-8 takes for a character.
abbrev pub utf8_len : ℕ → ℕ
utf8_len c = if ltb c 0x80 then 1 else if ltb c 0x800 then 2 else if ltb c 0x10000 then 3 else 4

abbrev pub byte_len : List ℕ → ℕ
byte_len [] = 0
byte_len (c ∷ cs) = utf8_len c + byte_len cs

-- `u8::is_ascii_digit`; no byte of a longer character is one.
abbrev pub is_digit : ℕ → Bool
is_digit c = leb 48 c && leb c 57

-- `PairingCode::parse`
unfoldable pub parse : List ℕ → Option PairingCode
unfolding is_whitespace
parse input =
    let trimmed = keep visible input in
    if not (byte_len trimmed == code_digits)
    then none
    else if not (all is_digit trimmed)
    then none
    else some (record { text = trimmed })

-- `PairingCode::display_grouped`
unfoldable pub display_grouped : PairingCode → List ℕ
display_grouped c = take 3 c.text ++ (32 ∷ drop 3 c.text)

pub data ProofRole : Type 0 where
  sender receiver : ProofRole

-- b"photosync/v1/sender" and b"photosync/v1/receiver"
unfoldable pub label : ProofRole → Bytes
label sender =
    112 ∷ 104 ∷ 111 ∷ 116 ∷ 111 ∷ 115 ∷ 121 ∷ 110 ∷ 99 ∷ 47 ∷ 118 ∷ 49 ∷ 47 ∷ 115 ∷ 101 ∷ 110 ∷ 100
    ∷ 101 ∷ 114 ∷ []
label receiver =
    112 ∷ 104 ∷ 111 ∷ 116 ∷ 111 ∷ 115 ∷ 121 ∷ 110 ∷ 99 ∷ 47 ∷ 118 ∷ 49 ∷ 47 ∷ 114 ∷ 101 ∷ 99 ∷ 101
    ∷ 105 ∷ 118 ∷ 101 ∷ 114 ∷ []

-- b"photosync/v1/code"
abbrev code_label : Bytes
code_label =
    112 ∷ 104 ∷ 111 ∷ 116 ∷ 111 ∷ 115 ∷ 121 ∷ 110 ∷ 99 ∷ 47 ∷ 118 ∷ 49 ∷ 47 ∷ 99 ∷ 111 ∷ 100 ∷ 101
    ∷ []

-- HMAC-SHA256 of the hmac crate, on a key and the concatenation of what was fed.
pub record Hmac : Type 0 where
  pub mac : Bytes → Bytes → Bytes
  pub verify_slice : Bytes → Bytes → Bytes → Bool

-- What the crate documents of `verify_slice`.
pub record IsExact (h : Hmac) : Type 0 where
  pub exact : (key m tag : Bytes) → (h.verify_slice key m tag ≡ true) ↔ (h.mac key m ≡ tag)

pub record AuthChallenge : Type 0 where
  pub nonce : Bytes
  pub sender_fingerprint : Hash32
  pub receiver_fingerprint : Hash32

-- What `proof` and `verify` feed to the MAC.
unfoldable pub transcript : AuthChallenge → ProofRole → Bytes
unfolding label be16
transcript c role =
    be16 protocol_major
    ++ (c.sender_fingerprint.bytes ++ (c.receiver_fingerprint.bytes ++ (c.nonce ++ label role)))

module _ (h : Hmac) where
  -- `derive_key`
  unfoldable pub derive_key : PairingCode → Bytes → Bytes
  derive_key code nonce = h.mac nonce (code_label ++ code.text)

  -- `AuthChallenge::proof`
  unfoldable pub proof : AuthChallenge → PairingCode → ProofRole → Hash32
  unfolding derive_key
  proof c code role = record { bytes = h.mac (derive_key code c.nonce) (transcript c role) }

  -- `AuthChallenge::verify`
  unfoldable pub verify_proof : AuthChallenge → PairingCode → ProofRole → Hash32 → Result (Unit {0})
  unfolding derive_key
  verify_proof c code role presented =
      if h.verify_slice (derive_key code c.nonce) (transcript c role) presented.bytes
      then ok tt
      else err auth_failed

pub record CodeSession : Type 0 where
  pub code : PairingCode
  pub issued_at_ms : ℕ
  pub attempts_left : ℕ

pub data CodeRejection : Type 0 where
  expired too_many_attempts : CodeRejection
  wrong_proof : ℕ → CodeRejection

pub data Verdict : Type 0 where
  proved : Verdict
  rejected : CodeRejection → Verdict

-- `CodeSession::with_code`
unfoldable pub with_code : PairingCode → ℕ → CodeSession
with_code code now_ms = record { code = code; issued_at_ms = now_ms; attempts_left = max_attempts }

-- `CodeSession::issue`
unfoldable pub issue : List ℕ → ℕ → Option (CodeSession × List ℕ)
unfolding with_code generate
issue words now_ms = elim (generate words) [
  | none ↦ none
  | some (code, rest) ↦ some (with_code code now_ms, rest)
]

-- `CodeSession::expires_at_ms`
unfoldable pub expires_at_ms : CodeSession → ℕ
expires_at_ms s = s.issued_at_ms + code_ttl_ms

-- `CodeSession::is_expired`
unfoldable pub is_expired : CodeSession → ℕ → Bool
unfolding expires_at_ms
is_expired s now_ms = leb (expires_at_ms s) now_ms

-- `CodeSession::is_live`
unfoldable pub is_live : CodeSession → ℕ → Bool
unfolding is_expired
is_live s now_ms = ltb 0 s.attempts_left && not (is_expired s now_ms)

-- The branch of a failed proof, with the attempts that remain.
abbrev failure : ℕ → Verdict
failure left = if left == 0 then rejected too_many_attempts else rejected (wrong_proof left)

abbrev settle : CodeSession → Result (Unit {0}) → Verdict × CodeSession
settle s (ok _) = (proved, s)
settle s (err _) =
    let left = s.attempts_left - 1 in (failure left, record s { attempts_left = left })

-- `CodeSession::verify`
unfoldable pub verify :
    Hmac → CodeSession → AuthChallenge → ProofRole → Hash32 → ℕ → Verdict × CodeSession
unfolding is_expired verify_proof
verify h s c role presented now_ms =
    if is_expired s now_ms
    then (rejected expired, s)
    else if s.attempts_left == 0
    then (rejected too_many_attempts, s)
    else settle s (verify_proof h c s.code role presented)
