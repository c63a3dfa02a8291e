-- ===== src/Pairing/Codes.antt =====
-- Codes of crates/core/src/pairing.rs: what a parse lets through, and how even the generator is.
use mathlib.Core.Option.{some-injective}
use photosync.Prelude.{
  ℕ, ◌+◌, ◌*◌, ◌/◌, ◌%◌, ◌≡◌, refl, ◌∙◌, ap, sym, ◌<◌, ◌↔◌, true, ◌&&◌, some, List, [], ◌∷◌, ◌++◌,
  arith, ltb, length, take, drop, all, keep, take-append-drop, lt→ltb, Bool-cases, inl, inr, subst,
}
use photosync.Pairing.{
  PairingCode, code_digits, limit, bound, six_digits, generate, is_whitespace, visible, byte_len,
  is_digit, parse, display_grouped,
}

-- Six ASCII digits.
pub record IsCode (c : PairingCode) : Type 0 where
  pub digits : all is_digit c.text ≡ true
  pub six : length c.text ≡ code_digits

digit-visible : (c : ℕ) → is_digit c ≡ true → visible c ≡ true
unfolding is_whitespace
digit-visible c h = ground arith

-- Digits survive the trimming, and take one byte each.
keep-digits : (cs : List ℕ) → all is_digit cs ≡ true → keep visible cs ≡ cs
keep-digits [] h = refl
keep-digits (c ∷ cs) h = ground (arith, digit-visible c, keep-digits cs)

byte_len-digits : (cs : List ℕ) → all is_digit cs ≡ true → byte_len cs ≡ length cs
byte_len-digits [] h = refl
byte_len-digits (c ∷ cs) h = ground (arith, byte_len-digits cs)

keep-append : (xs ys : List ℕ) → keep visible (xs ++ ys) ≡ keep visible xs ++ keep visible ys
keep-append [] ys = refl
keep-append (x ∷ xs) ys = ground (arith, keep-append xs ys)

-- What parses is six digits: the characters typed, without the white space.
pub parse-some :
    (input : List ℕ) (c : PairingCode)
    → parse input ≡ some c
    → IsCode c × (c.text ≡ keep visible input)
unfolding parse
parse-some input c h =
    let digits : all is_digit c.text ≡ true = ground arith in
    (record { digits = digits; six = ground (arith, byte_len-digits c.text digits) }, ground arith)

-- A code with white space put anywhere parses to the code.
pub parse-spaced :
    (input : List ℕ) (c : PairingCode)
    → IsCode c
    → keep visible input ≡ c.text
    → parse input ≡ some c
unfolding parse
parse-spaced input c v e = rw e (ground (arith, v.digits, v.six, byte_len-digits c.text v.digits))

all-append : (xs ys : List ℕ) → all is_digit (xs ++ ys) ≡ (all is_digit xs && all is_digit ys)
all-append [] ys = refl
all-append (x ∷ xs) ys = ground (arith, all-append xs ys)

-- A code of six digits, as the screen shows it, parses back.
pub parse-display_grouped : (c : PairingCode) → IsCode c → parse (display_grouped c) ≡ some c
unfolding display_grouped is_whitespace
parse-display_grouped c v = parse-spaced (take 3 c.text ++ (32 ∷ drop 3 c.text)) c v (
    keep-append (take 3 c.text) (32 ∷ drop 3 c.text)
    ∙ sym (keep-append (take 3 c.text) (drop 3 c.text))
    ∙ ap (keep visible) (take-append-drop 3 c.text)
    ∙ keep-digits c.text v.digits)

six_digits-injective : (m n : ℕ) → m < limit → n < limit → six_digits m ≡ six_digits n → m ≡ n
unfolding six_digits
six_digits-injective m n h k e = ground arith

drawn-text : (p q : PairingCode × List ℕ) → some p ≡ some q → p.0.text ≡ q.0.text
drawn-text p q e = ap (λ (r : PairingCode × List ℕ). r.0.text) (some-injective p q e)

-- Every code below a million comes from exactly 4294 of the words drawn, one for each `k`, and all
-- of these are accepted at once.
pub generate_even :
    (x v : ℕ) (words : List ℕ)
    → x < limit
    → ((k : ℕ) × (k < 4294) × (v ≡ k * limit + x))
      ↔ ((v < bound) × (generate (v ∷ words) ≡ some (record { text = six_digits x }, words)))
unfolding generate
generate_even x v words h = (forth, back)
  where
    forth :
        (k : ℕ) × (k < 4294) × (v ≡ k * limit + x)
        → (v < bound) × (generate (v ∷ words) ≡ some (record { text = six_digits x }, words))
    forth (k, small, e) = (
      omega arith,
      rw (lt→ltb v bound (omega arith), generate)
          (ap (λ (n : ℕ). some (record { text = six_digits n }, words)) (omega arith)),
    )

    back :
        (v < bound) × (generate (v ∷ words) ≡ some (record { text = six_digits x }, words))
        → (k : ℕ) × (k < 4294) × (v ≡ k * limit + x)
    back (small, e) =
        let same : v % limit ≡ x =
          six_digits-injective (v % limit) x (omega arith) h
            (drawn-text _ _ (rw (lt→ltb v bound small, generate) at e)) in
        (v / limit, omega arith, omega arith)

six_digits-IsCode : (n : ℕ) → IsCode (record { text = six_digits n })
unfolding six_digits
six_digits-IsCode n = record { digits = ground arith; six = refl }

-- A generated code is six digits.
pub generate-IsCode :
    (words rest : List ℕ) (c : PairingCode) → generate words ≡ some (c, rest) → IsCode c
unfolding generate
generate-IsCode [] rest c e = cc
generate-IsCode (v ∷ words) rest c e = elim (Bool-cases (ltb v bound)) [
  | inl good ↦
      subst IsCode
        (ap (λ (p : PairingCode × List ℕ). p.0) (some-injective _ _ (rw (good, generate) at e)))
        (six_digits-IsCode (v % limit))
  | inr bad ↦ generate-IsCode words rest c (rw (bad, generate) at e)
]
