-- ===== src/Identity/Laws.antt =====
-- The streaming hash of crates/core/src/identity.rs: what has been fed, and how a resume rebuilds it.
use photosync.Prelude.{
  ℕ, zero, suc, ◌+◌, ◌-◌, ◌%◌, ◌≡◌, refl, ◌∙◌, ap, sym, ◌≤◌, ◌<◌, true, false, [], ◌++◌, arith, min,
  some, ltb, take, drop, length, length-append, length-take, length-drop, take-add,
}
use native.Mathlib.Nat.{mod-eq_of_lt, add-mod_left}
use native.Mathlib.Decide.{dec_lt}
use photosync.Prelude.Int.{u64_mod}
use photosync.Prelude.Bytes.{Bytes}
use photosync.Errors.{endless, done, fail}
use photosync.Staging.{File, read_exact, seek_start}
use photosync.Identity.{
  Sha256, IsIncremental, FullHasher, new_hasher, feed, finish, digest, resume_loop, resume_from,
  buf_len,
}

-- A file on a device that does not fail.
abbrev pub quiet : Bytes → Bytes → ℕ → File
quiet c u k = record { content = c; durable = u; pos = k; faults = [] }

pub read_exact-quiet :
    (c u : Bytes) (k n : ℕ)
    → k + n ≤ length c
    → read_exact n (quiet c u k) ≡ done (take n (drop k c)) (quiet c u (k + n))
unfolding read_exact
read_exact-quiet c u k n h = ground arith

module _ (d : Sha256) where
  -- The hasher has been fed exactly `bytes`.
  pub record IsFed (me : FullHasher d) (fed : Bytes) : Type 0 where
    pub state : me.hasher ≡ d.update d.new fed
    pub count : me.bytes ≡ length fed

module _ (d : Sha256) (law : IsIncremental d) where
  pub new_hasher-IsFed : IsFed d (new_hasher d) []
  unfolding new_hasher
  new_hasher-IsFed = record { state = sym (law.update-nil d.new); count = refl }

  pub feed-IsFed :
      (me : FullHasher d) (fed chunk : Bytes)
      → length fed + length chunk < u64_mod
      → IsFed d me fed
      → IsFed d (feed d me chunk) (fed ++ chunk)
  unfolding feed
  feed-IsFed me fed chunk h v = record {
    state = ap (λ (s : d.State). d.update s chunk) v.state ∙ law.update-append d.new fed chunk;
    count = omega (arith, v.count, length-append fed chunk);
  }

  -- What one round reads.
  abbrev round_len : ℕ → ℕ → ℕ
  round_len up_to k = min (up_to - k) buf_len

  resume_loop_round :
      (w fuel up_to k n : ℕ) (c u : Bytes) (me : FullHasher d)
      → ltb me.bytes up_to ≡ true
      → min ((up_to - me.bytes) % w) buf_len ≡ n
      → k + n ≤ length c
      → resume_loop d w (suc fuel) up_to me (quiet c u k)
        ≡ resume_loop d w fuel up_to (feed d me (take n (drop k c))) (quiet c u (k + n))
  unfolding resume_loop
  resume_loop_round w fuel up_to k n c u me t q h =
      rw (t, resume_loop, q) (rw (read_exact-quiet c u k n h))

  resume_loop-stop :
      (w fuel up_to k : ℕ) (c u : Bytes) (me : FullHasher d)
      → ltb me.bytes up_to ≡ false
      → resume_loop d w (suc fuel) up_to me (quiet c u k) ≡ done me (quiet c u k)
  unfolding resume_loop
  resume_loop-stop w fuel up_to k c u me t = rw (t, resume_loop)

  -- The loop ends by its own test, having read exactly `up_to` bytes.
  pub resume_loop-IsFed :
      (w fuel up_to k : ℕ) (c u : Bytes) (me : FullHasher d)
      → up_to ≤ length c
      → up_to < w
      → up_to < u64_mod
      → k ≤ up_to
      → up_to - k ≤ fuel
      → IsFed d me (take k c)
      → (me' : FullHasher d) × (resume_loop d w fuel up_to me (quiet c u k)
          ≡ done me' (quiet c u up_to))
        × IsFed d me' (take up_to c)
  unfolding resume_loop
  resume_loop-IsFed w zero up_to k c u me hc hw hu hk hf v =
      let e : k ≡ up_to = omega arith in
      (me, rw (ended e) (ap (λ (n : ℕ). done me (quiet c u n)) e), rw e at v)
    where
      ended : k ≡ up_to → ltb me.bytes up_to ≡ false
      ended e = (let count : me.bytes ≡ k = omega (arith, v.count, length-take k c) in ground arith)
  resume_loop-IsFed w (suc fuel) up_to k c u me hc hw hu hk hf v = elim (dec_lt k up_to) [
    | yes more ↦
        let (me', run, v') =
          resume_loop-IsFed w fuel up_to (k + n) c u (feed d me piece) hc hw hu (omega arith)
            (omega arith) fed' in
        (
          me',
          resume_loop_round w fuel up_to k n c u me (ground (arith, count)) (wanted more)
                (omega arith)
              ∙ run,
          v',
        )
    | no stop ↦
        let e : k ≡ up_to = omega arith in
        (
          me,
          resume_loop-stop w fuel up_to k c u me (ground (arith, count))
              ∙ ap (λ (z : ℕ). done me (quiet c u z)) e,
          rw e at v,
        )
  ]
    where
      n : ℕ
      n = round_len up_to k

      piece : Bytes
      piece = take n (drop k c)

      count : me.bytes ≡ k
      count = omega (arith, v.count, length-take k c)

      short : k < up_to → (up_to - k) % w ≡ up_to - k
      short more = mod-eq_of_lt (omega arith)

      wanted : k < up_to → min ((up_to - me.bytes) % w) buf_len ≡ n
      wanted more =
          ap (λ (b : ℕ). min ((up_to - b) % w) buf_len) count
          ∙ ap (λ (r : ℕ). min r buf_len) (short more)

      fed' : IsFed d (feed d me piece) (take (k + n) c)
      fed' = rw (take-add k n c) (
          feed-IsFed me (take k c) piece
            (omega (arith, length-take k c, length-take n (drop k c), length-drop k c)) v)

  -- On a working device, for an offset inside the file and below the width of usize, `resume_from`
  -- returns, at that offset, with the digest of exactly the bytes before it.
  pub resume_from-IsFed :
      (w up_to : ℕ) (c u : Bytes) (p : ℕ)
      → up_to ≤ length c
      → up_to < w
      → up_to < u64_mod
      → (me : FullHasher d) × (resume_from d w up_to (quiet c u p) ≡ done me (quiet c u up_to))
        × IsFed d me (take up_to c)
  unfolding resume_from seek_start
  resume_from-IsFed w up_to c u p hc hw hu =
      resume_loop-IsFed w up_to up_to 0 c u (new_hasher d) hc hw hu (omega arith) (omega arith)
        new_hasher-IsFed

  -- Enough bytes fed to the hasher give the digest of exactly those bytes.
  pub finish-IsFed :
      (me : FullHasher d) (fed : Bytes)
      → IsFed d me fed
      → 0 < length fed
      → finish d me ≡ some (digest d (d.update d.new fed))
  unfolding finish
  finish-IsFed me fed v h = rw (v.count, v.state) (ground arith)

  -- While `as usize` wraps to the same number, a round reads what it would read of that.
  wrapped_round : (w k n : ℕ) → n ≤ k → k < w → min ((k + w - n) % w) buf_len ≡ min (k - n) buf_len
  wrapped_round w k n h short =
      ap (λ (r : ℕ). min r buf_len)
        (ap (λ (z : ℕ). z % w) (let e : k + w - n ≡ w + (k - n) = omega arith in e)
          ∙ add-mod_left w (k - n)
          ∙ mod-eq_of_lt (omega arith))

  pub resume_loop_stuck :
      (w fuel k n : ℕ) (c u : Bytes) (me : FullHasher d)
      → k ≤ length c
      → k < w
      → k + w < u64_mod
      → n ≤ k
      → me.bytes ≡ n
      → (m : ℕ) × (resume_loop d w fuel (k + w) me (quiet c u n) ≡ fail endless (quiet c u m))
  unfolding resume_loop feed
  resume_loop_stuck w zero k n c u me hc hw hu hn e =
      (n, let more : ltb me.bytes (k + w) ≡ true = ground arith in rw more refl)
  resume_loop_stuck w (suc fuel) k n c u me hc hw hu hn e =
      let step = min (k - n) buf_len in
      let piece = take step (drop n c) in
      let size : length piece ≡ step =
        omega (arith, length-take step (drop n c), length-drop n c) in
      let (m, run) =
        resume_loop_stuck w fuel k (n + step) c u (feed d me piece) hc hw hu (omega arith) (
          let fits : (me.bytes + length piece) % u64_mod ≡ n + step =
            mod-eq_of_lt (omega (arith, e, size)) ∙ omega (arith, e, size) in
          fits) in
      (
        m,
        resume_loop_round w fuel (k + w) n step c u me (ground arith)
              (ap (λ (b : ℕ). min ((k + w - b) % w) buf_len) e ∙ wrapped_round w k n hn hw)
              (omega arith)
            ∙ run,
      )
