-- ===== src/Errors.antt =====
-- crates/core/src/error.rs: the engine's errors, and outcomes of calls that own a resource.
-- A formatted `detail` string is kept as the value it was formatted from; two io kinds are told
-- apart, the end of a file and a fault of the device.
use photosync.Prelude.{ℕ, String, ◌≡◌, ap, refl, ◌⊎◌, inl, inr}

pub data IoKind : Type 0 where
  unexpected_eof device : IoKind

pub data DbFault : Type 0 where
  foreign_key unique_failed no_rows bad_value : DbFault

-- What a `Protocol` error says.
pub data Detail : Type 0 where
  cannot_encode cannot_decode empty_header short_frame stray_payload : Detail
  header_over payload_over : ℕ → Detail
  body_length : ℕ → ℕ → Detail
  speaks : ℕ → Detail

-- `endless` is not of the code: a loop has not ended within the rounds that it was given.
pub data Error : Type 0 where
  endless : Error
  db : DbFault → Error
  io : IoKind → Error
  schema_too_new : ℕ → ℕ → Error
  corrupt_row : String → String → Error
  hash_mismatch : Error
  empty_asset : Error
  protocol : Detail → Error
  auth_failed : Error

pub data Result {ℓ} (A : Type ℓ) : Type ℓ where
  ok : A → Result A
  err : Error → Result A

infixl 5 ◌>>=◌
abbrev pub ◌>>=◌ {ℓ κ} : {A : Type ℓ} {B : Type κ} → Result A → (A → Result B) → Result B
ok a >>= f = f a
err e >>= f = err e

-- A call that leaves a resource behind, whether it returns a value or an error.
pub data Run (S A : Type 0) : Type 0 where
  done : A → S → Run S A
  fail : Error → S → Run S A

pub ok-injective {ℓ} : {A : Type ℓ} (a b : A) → ok a ≡ ok b → a ≡ b
ok-injective {A} a b e = ap (value a) e
  where
    value : A → Result A → A
    value d (ok x) = x
    value d (err _) = d

pub Result-cases {ℓ} :
    {A : Type ℓ} (r : Result A) → ((a : A) × (r ≡ ok a)) ⊎ ((e : Error) × (r ≡ err e))
Result-cases (ok a) = inl (a, refl)
Result-cases (err e) = inr (e, refl)
