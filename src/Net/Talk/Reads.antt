-- ===== src/Net/Talk/Reads.antt =====
-- How many frames are left to arrive in a conversation: `receive` takes one, and nothing adds any.
use photosync.Prelude.{ℕ, suc, ◌≤◌, ◌<◌, List, [], ◌∷◌, arith, length, Bool-cases, inl, inr}
use photosync.Errors.{Run, done, fail}
use photosync.Proto.{Frame}
use photosync.Net.Link.{
  Arrival, framed, silent, broken, LinkReading, received, failed, read, is_heartbeat,
}
use photosync.Net.Talk.{SessionError, endless, World, receive, taken, ran}
use photosync.Net.Talk.Laws.{Ends}

-- At most so many frames are left to arrive.
abbrev pub Left : {A : Type 0} → ℕ → A → World → Type 0
Left n a u = length u.incoming ≤ n

-- No loop was left for want of rounds.
abbrev pub InTime : SessionError → World → Type 0
InTime endless u = ¬ Unit {0}
InTime _ u = Unit {0}

abbrev pub Shorter : ℕ → LinkReading → Type 0
Shorter n (received f rest) = length rest < n
Shorter n (failed e) = Unit {0}

Shorter-suc : (n : ℕ) (r : LinkReading) → Shorter n r → Shorter (suc n) r
Shorter-suc n (received f rest) h = omega arith
Shorter-suc n (failed e) h = tt

pub read-Shorter : (xs : List Arrival) → Shorter (length xs) (read xs)
unfolding read
read-Shorter [] = tt
read-Shorter (silent ∷ xs) = tt
read-Shorter (broken e ∷ xs) = tt
read-Shorter (framed f ∷ xs) = elim (Bool-cases (is_heartbeat f.message)) [
  | inl e ↦ rw e (Shorter-suc (length xs) (read xs) (read-Shorter xs))
  | inr e ↦ rw e (let h : length xs < suc (length xs) = omega arith in h)
]

-- A frame that is read is no longer to come.
pub Ends-shorter :
    (P : Frame → World → Type 0) (w : World)
    → ((f : Frame) (rest : List Arrival)
        → length rest < length w.incoming
        → P f (record w { incoming = rest }))
    → Ends P InTime (receive w)
unfolding receive
Ends-shorter P w good = on_reading (read w.incoming) (read-Shorter w.incoming)
  where
    on_reading : (r : LinkReading) → Shorter (length w.incoming) r → Ends P InTime (taken w r)
    on_reading (received f rest) h = good f rest h
    on_reading (failed e) h = tt

pub Ends-ran :
    {S A : Type 0} (P : A × S → World → Type 0) (r : Run S A) (u : World)
    → ((a : A) (s : S) → P (a, s) u)
    → Ends P InTime (ran r u)
Ends-ran P (done a s) u good = good a s
Ends-ran P (fail e s) u good = tt
