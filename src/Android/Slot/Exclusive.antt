-- ===== src/Android/Slot/Exclusive.antt =====
-- One session at a time: the invariant of the slot of crates/android/src/session.rs.
use photosync.Prelude.{
  ◌≡◌, refl, ◌∙◌, ap, sym, subst, ◌⊎◌, inl, inr, Bool, true, false, not, Option, none, some, List,
  [], ◌∷◌, ◌++◌, Bool-cases,
}
use photosync.Android.Slot.{
  App, Status, Stage, claimed, announced, running, reported, Step, asked, refused, said_so, spawned,
  failed, finished, released, panicked, Steps, here, step, ask, release, update_status, entered,
  idle, claim, entered, failed_with, finished_with,
}

abbrev pub says_running : Option Status → Bool
says_running none = false
says_running (some s) = s.running

-- Nobody is in, or one is and the slot is taken; and the status speaks of a running session only while
-- the slot is taken, and never once that session has reported.
abbrev pub Occupied : Option Status → Stage → Type 0
Occupied status claimed = says_running status ≡ false
Occupied status announced = says_running status ≡ true
Occupied status running = says_running status ≡ true
Occupied status reported = says_running status ≡ false

abbrev pub Exclusive : App → Type 0
Exclusive a =
    ((a.stages ≡ []) × ((a.busy ≡ true) ⊎ (says_running a.status ≡ false)))
    ⊎ ((s : Stage) × (a.stages ≡ s ∷ []) × (a.busy ≡ true) × Occupied a.status s)

-- The one stage there is, is the one a step speaks of.
abbrev first : Stage → List Stage → Stage
first d [] = d
first d (s ∷ rest) = s

abbrev rest_of : List Stage → List Stage
rest_of [] = []
rest_of (s ∷ rest) = rest

only :
    (earlier later : List Stage) (s t : Stage)
    → earlier ++ (s ∷ later) ≡ t ∷ []
    → (s ≡ t) × (earlier ++ later ≡ []) × ((u : Stage) → earlier ++ (u ∷ later) ≡ u ∷ [])
only [] later s t e = (ap (first s) e, ap rest_of e, λ u. ap (◌∷◌ u) (ap rest_of e))
only (x ∷ earlier) later s t e = absurd (not_nil earlier later s (ap rest_of e))
  where
    not_nil : (xs ys : List Stage) (u : Stage) → ¬ (xs ++ (u ∷ ys) ≡ [])
    not_nil [] ys u q = cc
    not_nil (y ∷ xs) ys u q = cc

-- A stage that is there is the only one, and its holder has the slot.
held :
    (a : App) (earlier later : List Stage) (s : Stage)
    → a.stages ≡ earlier ++ (s ∷ later)
    → Exclusive a
    → (a.busy ≡ true)
      × Occupied a.status s
      × (earlier ++ later ≡ [])
      × ((u : Stage) → earlier ++ (u ∷ later) ≡ u ∷ [])
held a earlier later s e (inl (empty, free)) = absurd (not_nil earlier later (sym e ∙ empty))
  where
    not_nil : (xs ys : List Stage) → ¬ (xs ++ (s ∷ ys) ≡ [])
    not_nil [] ys q = cc
    not_nil (y ∷ xs) ys q = cc
held a earlier later s e (inr (t, one, taken, says)) =
    (let (same, gone, alone) = only earlier later s t (sym e ∙ one) in
      (taken, subst (λ (u : Stage). Occupied a.status u) (sym same) says, gone, alone))

updated :
    (f : Status → Status) (o : Option Status)
    → ((s : Status) → (f s).running ≡ false)
    → says_running (update_status f o) ≡ false
unfolding update_status
updated f none quiet = refl
updated f (some s) quiet = quiet s

asked-Exclusive : (a : App) → Exclusive a → Exclusive (ask a)
unfolding ask claim
asked-Exclusive a (inl (empty, inl taken)) =
    inl (ap (λ (b : Bool). entered (not b) a.stages) taken ∙ empty, inl refl)
asked-Exclusive a (inl (empty, inr quiet)) = elim (Bool-cases a.busy) [
  | inl taken ↦ inl (ap (λ (b : Bool). entered (not b) a.stages) taken ∙ empty, inl refl)
  | inr free ↦ inr (
    claimed,
    ap (λ (b : Bool). entered (not b) a.stages) free ∙ ap (◌∷◌ claimed) empty,
    refl,
    quiet,
  )
]
asked-Exclusive a (inr (s, one, taken, says)) =
    inr (s, ap (λ (b : Bool). entered (not b) a.stages) taken ∙ one, refl, says)

step-Exclusive : (a b : App) → Step a b → Exclusive a → Exclusive b
unfolding release
step-Exclusive a _ asked v = asked-Exclusive a v
step-Exclusive a _ (refused earlier later e) v =
    (let (taken, says, gone, alone) = held a earlier later claimed e v in inl (gone, inr says))
step-Exclusive a _ (said_so earlier later e) v =
    (let (taken, says, gone, alone) = held a earlier later claimed e v in
      inr (announced, alone announced, taken, refl))
step-Exclusive a _ (spawned earlier later e) v =
    (let (taken, says, gone, alone) = held a earlier later announced e v in
      inr (running, alone running, taken, says))
step-Exclusive a _ (failed msg earlier later e) v =
    (let (taken, says, gone, alone) = held a earlier later running e v in
      inr (reported, alone reported, taken, updated (failed_with msg) a.status (λ s. refl)))
step-Exclusive a _ (finished n earlier later e) v =
    (let (taken, says, gone, alone) = held a earlier later running e v in
      inr (reported, alone reported, taken, updated (finished_with n) a.status (λ s. refl)))
step-Exclusive a _ (released earlier later e) v =
    (let (taken, says, gone, alone) = held a earlier later reported e v in inl (gone, inr says))
step-Exclusive a _ (panicked earlier later e) v =
    (let (taken, says, gone, alone) = held a earlier later running e v in inl (gone, inl taken))

steps-Exclusive : (a b : App) → Steps a b → Exclusive a → Exclusive b
steps-Exclusive a _ here v = v
steps-Exclusive a b (step {b = m} s rest) v = steps-Exclusive m b rest (step-Exclusive a m s v)

-- However the calls of the app and the threads of its sessions take turns: at most one call or thread
-- is in, and while it is, the slot is taken; the status says that a session runs from just before its
-- thread is spawned to its report, not before and not after while the slot is held, and once nobody is
-- in, only with the slot still taken.
pub reachable-Exclusive : (a : App) → Steps idle a → Exclusive a
reachable-Exclusive a steps = steps-Exclusive idle a steps (inl (refl, inr refl))

-- The slot is taken, and nobody is in.
abbrev pub Lost : App → Type 0
Lost a = (a.busy ≡ true) × (a.stages ≡ [])

nobody :
    (a : App) (earlier later : List Stage) (s : Stage)
    → Lost a
    → ¬ (a.stages ≡ earlier ++ (s ∷ later))
nobody a earlier later s (taken, empty) e = not_nil earlier (sym e ∙ empty)
  where
    not_nil : (xs : List Stage) → ¬ (xs ++ (s ∷ later) ≡ [])
    not_nil [] q = cc
    not_nil (y ∷ xs) q = cc

step-Lost : (a b : App) → Step a b → Lost a → Lost b
unfolding ask claim
step-Lost a _ asked (taken, empty) =
    (refl, ap (λ (b : Bool). entered (not b) a.stages) taken ∙ empty)
step-Lost a _ (refused earlier later e) v = absurd (nobody a earlier later claimed v e)
step-Lost a _ (said_so earlier later e) v = absurd (nobody a earlier later claimed v e)
step-Lost a _ (spawned earlier later e) v = absurd (nobody a earlier later announced v e)
step-Lost a _ (failed msg earlier later e) v = absurd (nobody a earlier later running v e)
step-Lost a _ (finished n earlier later e) v = absurd (nobody a earlier later running v e)
step-Lost a _ (released earlier later e) v = absurd (nobody a earlier later reported v e)
step-Lost a _ (panicked earlier later e) v = absurd (nobody a earlier later running v e)

steps-Lost : (a b : App) → Steps a b → Lost a → Lost b
steps-Lost a _ here v = v
steps-Lost a b (step {b = m} s rest) v = steps-Lost m b rest (step-Lost a m s v)

pub panicked_loses :
    (a b : App) (earlier later : List Stage)
    → Steps idle a
    → a.stages ≡ earlier ++ (running ∷ later)
    → Steps (record a { stages = earlier ++ later }) b
    → Lost b
panicked_loses a b earlier later start e steps =
    (let (taken, says, gone, alone) =
        held a earlier later running e (reachable-Exclusive a start) in
      steps-Lost (record a { stages = earlier ++ later }) b steps (taken, gone))
