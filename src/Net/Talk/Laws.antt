-- ===== src/Net/Talk/Laws.antt =====
-- What a conversation guarantees whatever the peer and the link do: a rule for each of its steps.
use photosync.Prelude.{
  ◌≡◌, refl, Bool, true, false, Option, none, some, List, [], ◌∷◌, ◌++◌, ap, ◌∙◌, Bool-cases, inl,
  inr, if◌then◌else◌,
}
use photosync.Errors.{Error, Result, ok, err}
use photosync.Proto.{Frame, Message, heartbeat, new_frame}
use photosync.Db.{Db}
use photosync.Net.Link.{LinkError, Arrival, LinkReading, received, failed, read}
use photosync.Net.Talk.{
  SessionError, link, core, commit_to, World, Talk, Talked, said, broke, continue, ignored, written,
  write, send, receive, keep_alive, later, next_lull, next_outage, taken,
}

-- `P` holds of what is returned, and `Q` of an error that ends the conversation.
abbrev pub Ends :
    {A : Type 0} → (A → World → Type 0) → (SessionError → World → Type 0) → Talked A → Type 0
Ends P Q (said a w) = P a w
Ends P Q (broke e w) = Q e w

pub Ends-continue :
    {A B : Type 0} (P : B → World → Type 0) (Q : SessionError → World → Type 0) (k : A → Talk B)
    (r : Talked A)
    → Ends (λ a w. Ends P Q (k a w)) Q r
    → Ends P Q (continue k r)
Ends-continue P Q k (said a w) h = h
Ends-continue P Q k (broke e w) h = h

-- The world after a frame was sent, with what is left of the outages.
abbrev pub after : World → List (Option LinkError) → Frame → World
after w o f = record w { outages = o; sent = w.sent ++ (f ∷ []) }

Ends-written :
    (P : Unit {0} → World → Type 0) (Q : SessionError → World → Type 0) (f : Frame) (w : World)
    (x : Option LinkError)
    → ((o : List (Option LinkError)) → P tt (after w o f))
    → ((o : List (Option LinkError)) (e : LinkError) → Q (link e) (record w { outages = o }))
    → Ends P Q (written f w x)
Ends-written P Q f w none good bad = good (later w.outages)
Ends-written P Q f w (some e) good bad = bad (later w.outages) e

pub Ends-write :
    (P : Unit {0} → World → Type 0) (Q : SessionError → World → Type 0) (f : Frame) (w : World)
    → ((o : List (Option LinkError)) → P tt (after w o f))
    → ((o : List (Option LinkError)) (e : LinkError) → Q (link e) (record w { outages = o }))
    → Ends P Q (write f w)
unfolding write
Ends-write P Q f w good bad = Ends-written P Q f w (next_outage w.outages) good bad

pub Ends-send :
    (P : Unit {0} → World → Type 0) (Q : SessionError → World → Type 0) (m : Message) (w : World)
    → ((o : List (Option LinkError)) → P tt (after w o (new_frame m)))
    → ((o : List (Option LinkError)) (e : LinkError) → Q (link e) (record w { outages = o }))
    → Ends P Q (send m w)
unfolding send
Ends-send P Q m w good bad = Ends-write P Q (new_frame m) w good bad

Ends-taken :
    (P : Frame → World → Type 0) (Q : SessionError → World → Type 0) (w : World) (r : LinkReading)
    → ((f : Frame) (rest : List Arrival) → P f (record w { incoming = rest }))
    → ((e : LinkError) → Q (link e) (record w { incoming = [] }))
    → Ends P Q (taken w r)
Ends-taken P Q w (received f rest) good bad = good f rest
Ends-taken P Q w (failed e) good bad = bad e

pub Ends-receive :
    (P : Frame → World → Type 0) (Q : SessionError → World → Type 0) (w : World)
    → ((f : Frame) (rest : List Arrival) → P f (record w { incoming = rest }))
    → ((e : LinkError) → Q (link e) (record w { incoming = [] }))
    → Ends P Q (receive w)
unfolding receive
Ends-receive P Q w good bad = Ends-taken P Q w (read w.incoming) good bad

-- These frames are read first, heartbeats aside, and this is left to arrive.
abbrev pub Heard : List Arrival → List Frame → List Arrival → Type 0
Heard xs [] rest = xs ≡ rest
Heard xs (f ∷ fs) rest = (later : List Arrival) × (read xs ≡ received f later) × Heard later fs rest

pub Ends-heard :
    (P : Frame → World → Type 0) (Q : SessionError → World → Type 0) (w : World)
    → ((f : Frame) (rest : List Arrival)
        → read w.incoming ≡ received f rest
        → P f (record w { incoming = rest }))
    → ((e : LinkError) → Q (link e) (record w { incoming = [] }))
    → Ends P Q (receive w)
unfolding receive
Ends-heard P Q w good bad = on_reading (read w.incoming) refl
  where
    on_reading : (r : LinkReading) → read w.incoming ≡ r → Ends P Q (taken w r)
    on_reading (received f rest) e = good f rest e
    on_reading (failed e') e = bad e'

pub Ends-ignored :
    (P : Unit {0} → World → Type 0) (Q : SessionError → World → Type 0) (r : Talked (Unit {0}))
    → Ends P (λ e w. P tt w) r
    → Ends P Q (ignored r)
Ends-ignored P Q (said tt w) h = h
Ends-ignored P Q (broke e w) h = h

pub Ends-keep_alive :
    (P : Unit {0} → World → Type 0) (Q : SessionError → World → Type 0) (w : World)
    → ((l : List Bool) → P tt (record w { lulls = l }))
    → ((l : List Bool) (o : List (Option LinkError))
        → P tt (after (record w { lulls = l }) o (new_frame heartbeat)))
    → ((l : List Bool) (o : List (Option LinkError)) (e : LinkError)
        → Q (link e) (record w { lulls = l; outages = o }))
    → Ends P Q (keep_alive w)
unfolding keep_alive
Ends-keep_alive P Q w idle beat bad = elim (Bool-cases (next_lull w.lulls)) [
  | inl e ↦ rw e (
      Ends-send P Q heartbeat (record w { lulls = later w.lulls }) (beat (later w.lulls))
        (bad (later w.lulls)))
  | inr e ↦ rw e (idle (later w.lulls))
]

pub Ends-if :
    {A : Type 0} (P : A → World → Type 0) (Q : SessionError → World → Type 0) (b : Bool)
    (m n : Talk A) (w : World)
    → (b ≡ true → Ends P Q (m w))
    → (b ≡ false → Ends P Q (n w))
    → Ends P Q ((if b then m else n) w)
Ends-if P Q true m n w yes_case no_case = yes_case refl
Ends-if P Q false m n w yes_case no_case = no_case refl

pub Ends-weaken :
    {A : Type 0} (P P' : A → World → Type 0) (Q : SessionError → World → Type 0) (r : Talked A)
    → Ends P Q r
    → ((a : A) (w : World) → P a w → P' a w)
    → Ends P' Q r
Ends-weaken P P' Q (said a w) h imp = imp a w h
Ends-weaken P P' Q (broke e w) h imp = h

pub Ends-stored :
    {A : Type 0} (P : A → World → Type 0) (Q : SessionError → World → Type 0) (r : Result (A × Db))
    (w : World)
    → ((a : A) (t : Db) → P a (record w { tables = t }))
    → ((e : Error) → Q (core e) w)
    → Ends P Q (commit_to r w)
Ends-stored P Q (ok p) w good bad = good p.0 p.1
Ends-stored P Q (err e) w good bad = bad e

-- Every element satisfies `P`.
abbrev pub Every {ℓ} : {A : Type ℓ} → (A → Type 0) → List A → Type 0
Every P [] = Unit {0}
Every P (x ∷ xs) = P x × Every P xs

pub Every-append {ℓ} :
    {A : Type ℓ} (P : A → Type 0) (xs ys : List A) → Every P xs → Every P ys → Every P (xs ++ ys)
Every-append P [] ys hx hy = hy
Every-append P (x ∷ xs) ys (hx, hxs) hy = (hx, Every-append P xs ys hxs hy)

append_assoc {ℓ} : {A : Type ℓ} (xs ys zs : List A) → (xs ++ ys) ++ zs ≡ xs ++ (ys ++ zs)
append_assoc [] ys zs = refl
append_assoc (x ∷ xs) ys zs = ap (◌∷◌ x) (append_assoc xs ys zs)

-- Between two worlds some frames were sent, and these satisfy `P`.
abbrev pub Said : (List Frame → Type 0) → World → World → Type 0
Said P w u = (new : List Frame) × (u.sent ≡ w.sent ++ new) × P new

pub Said-after :
    (P R : List Frame → Type 0) (w u : World) (o : List (Option LinkError)) (f : Frame)
    → ((new : List Frame) → P new → R (new ++ (f ∷ [])))
    → Said P w u
    → Said R w (after u o f)
Said-after P R w u o f grow (new, e, p) = (
  new ++ (f ∷ []),
  ap (λ (xs : List Frame). xs ++ (f ∷ [])) e ∙ append_assoc w.sent new (f ∷ []),
  grow new p,
)

append_nil {ℓ} : {A : Type ℓ} (xs : List A) → xs ≡ xs ++ []
append_nil [] = refl
append_nil (x ∷ xs) = ap (◌∷◌ x) (append_nil xs)

pub Said_start : (P : List Frame → Type 0) (w : World) → P [] → Said P w w
Said_start P w p = ([], append_nil w.sent, p)

pub Ends-map :
    {A : Type 0} (P P' : A → World → Type 0) (Q Q' : SessionError → World → Type 0) (r : Talked A)
    → ((a : A) (w : World) → P a w → P' a w)
    → ((e : SessionError) (w : World) → Q e w → Q' e w)
    → Ends P Q r
    → Ends P' Q' r
Ends-map P P' Q Q' (said a w) good bad h = good a w h
Ends-map P P' Q Q' (broke e w) good bad h = bad e w h
