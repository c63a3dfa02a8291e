-- ===== src/Staging/Laws.antt =====
-- How a file's prefix fares under the calls of crates/core/src/provider.rs.
use photosync.Prelude.{
  ℕ, ◌+◌, ◌-◌, ◌≡◌, ◌∙◌, ap, ◌≤◌, ◌++◌, arith, take, drop, replicate, length, length-take,
  take-append_left, take-append_at, take-take, take-append_add,
}
use photosync.Prelude.Bytes.{Bytes}
use photosync.Staging.{overwrite}

-- A cut that comes out whole says that the list is long enough.
pub le-length_of_take : (xs p : Bytes) → take (length p) xs ≡ p → length p ≤ length xs
le-length_of_take xs p h = omega (arith, ap length h, length-take (length p) xs)

-- A write at `n` leaves the first `n` bytes alone.
pub take-overwrite :
    (n m : ℕ) (bs old : Bytes) → m ≤ n → n ≤ length old → take m (overwrite n bs old) ≡ take m old
unfolding overwrite
take-overwrite n m bs old h k =
    take-append_left m (take n old) _ (omega (arith, length-take n old)) ∙ take-take m n old h

-- Behind them come the bytes written.
pub take-overwrite_end :
    (n : ℕ) (bs old : Bytes)
    → n ≤ length old
    → take (n + length bs) (overwrite n bs old) ≡ take n old ++ bs
unfolding overwrite
take-overwrite_end n bs old h =
    ap (λ (z : ℕ). take (n + length bs) (take n old ++ (replicate z 0 ++ tail))) gap
    ∙ ap (λ (k : ℕ). take (k + length bs) (take n old ++ tail)) long
    ∙ take-append_add (take n old) tail (length bs)
    ∙ ap (◌++◌ (take n old)) (take-append_at bs (drop (n + length bs) old))
  where
    tail : Bytes
    tail = bs ++ drop (n + length bs) old

    gap : n - length old ≡ 0
    gap = omega arith

    long : n ≡ length (take n old)
    long = omega (arith, length-take n old)
