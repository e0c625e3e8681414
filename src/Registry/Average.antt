-- ===== src/Registry/Average.antt =====
-- `AvgCompileTime` as `DecrementTasks` of internal/coordinator/registry/registry.go keeps it.
use hybridgrid.Prelude.{ℕ, suc, ◌+◌, ◌*◌, ◌/◌, ◌≤◌, ◌<◌, ◌≡◌, refl, ◌∙◌, Bool, true, false, arith}
use Prim.Native.Nat.{min, max}
use native.Mathlib.Nat.{
  div-mul-le_self, le-div_iff_mul-le, div-lt_iff_lt-mul, mul-le-mul_right, lt-mul-div-succ,
}
use hybridgrid.Prelude.Int.{ℤ, pos, half64, wrap64, wrap-InRange, ◌*ℤ◌, ◌+ℤ◌, ◌-ℤ◌, quot_ℤ}
use hybridgrid.Registry.Types.{WorkerInfo}
use hybridgrid.Registry.Table.{finish, release, tally, average, settle}

wrap64-pos : (n : ℕ) → n < half64 → wrap64 (pos n) ≡ pos n
unfolding wrap64
wrap64-pos n h = wrap-InRange half64 (pos n) (omega arith)

pos-+ : (m n : ℕ) → pos m +ℤ pos n ≡ pos (m + n)
unfolding ◌+ℤ◌
pos-+ m n = ground arith

pos-* : (m n : ℕ) → pos m *ℤ pos n ≡ pos (m * n)
unfolding ◌*ℤ◌
pos-* m n = ground arith

pos-pred : (n : ℕ) → pos (suc n) -ℤ pos 1 ≡ pos n
unfolding ◌-ℤ◌
pos-pred n = ground arith

-- `average` where nothing overflows.
average-pos :
    (m s d : ℕ) (w : WorkerInfo)
    → w.avg_compile_time ≡ pos m
    → w.successful_tasks ≡ pos (suc s)
    → s < half64
    → m * s + d < half64
    → (average (pos d) w).avg_compile_time ≡ pos ((m * s + d) / suc s)
unfolding average quot_ℤ
average-pos m s d w hm hs ks ko =
    simp
      (
        hm,
        hs,
        pos-pred s,
        wrap64-pos s ks,
        pos-* m s,
        wrap64-pos (m * s) (omega arith),
        pos-+ (m * s) d,
        wrap64-pos (m * s + d) ko,
      )
      (ground arith)

finish-average :
    (success : Bool) (t : ℤ) (w : WorkerInfo)
    → (finish success t w).avg_compile_time
      ≡ (average t (tally success (release w))).avg_compile_time
unfolding finish settle
finish-average success t w = ground arith

release-fields :
    (w : WorkerInfo)
    → ((release w).avg_compile_time ≡ w.avg_compile_time)
      × ((release w).successful_tasks ≡ w.successful_tasks)
unfolding release
release-fields w = ground arith

tally-average : (w : WorkerInfo) → (tally true w).avg_compile_time ≡ w.avg_compile_time
unfolding tally
tally-average w = refl

failed-fields :
    (w : WorkerInfo)
    → ((tally false (release w)).avg_compile_time ≡ w.avg_compile_time)
      × ((tally false (release w)).successful_tasks ≡ w.successful_tasks)
unfolding tally release
failed-fields w = ground arith

finish-success : (w : WorkerInfo) → (finish false (pos 0) w).successful_tasks ≡ w.successful_tasks
unfolding finish settle average tally release
finish-success w = ground arith

tally-true :
    (s : ℕ) (w : WorkerInfo)
    → w.successful_tasks ≡ pos s
    → s + 1 < half64
    → (tally true w).successful_tasks ≡ pos (suc s)
unfolding tally
tally-true s w h k = simp (h, pos-+ s 1, wrap64-pos (s + 1) k) (ground arith)

-- The compile time of a successful task enters the average as the (s + 1)-st of the successful tasks:
-- the new average is the mean of `s` times the old one and the new time, rounded down. It lies between
-- the old average and the new time, and is the new time itself at the first success. (No int64
-- overflow.)
pub finish-average_success :
    (m s d : ℕ) (w : WorkerInfo)
    → w.avg_compile_time ≡ pos m
    → w.successful_tasks ≡ pos s
    → s + 1 < half64
    → m * s + d < half64
    → (a : ℕ) × ((finish true (pos d) w).avg_compile_time ≡ pos a)
      × (a * suc s ≤ m * s + d)
      × (m * s + d < (a + 1) * suc s)
      × (s ≡ 0 → a ≡ d)
      × (min m d ≤ a)
      × (a ≤ max m d)
finish-average_success m s d w hm hs ks ko = (
  (m * s + d) / suc s,
  rw (finish-average true (pos d) w) (
      average-pos m s d (tally true (release w))
        (tally-average (release w) ∙ (release-fields w).0 ∙ hm) tallied (omega arith) ko),
  div-mul-le_self (m * s + d) (suc s),
  omega (arith, lt-mul-div-succ (m * s + d) {b = suc s} (omega arith)),
  first,
  low,
  high,
)
  where
    tallied : (tally true (release w)).successful_tasks ≡ pos (suc s)
    tallied = tally-true s (release w) ((release-fields w).1 ∙ hs) ks

    first : s ≡ 0 → (m * s + d) / suc s ≡ d
    first z = rw z (omega arith)

    low : min m d ≤ (m * s + d) / suc s
    low =
        (le-div_iff_mul-le (omega arith)).1
          (omega (arith, mul-le-mul_right {m = min m d} {n = m} s (omega arith)))

    high : (m * s + d) / suc s ≤ max m d
    high =
        let below : (m * s + d) / suc s < max m d + 1 =
          (div-lt_iff_lt-mul {k = suc s} {x = m * s + d} {y = max m d + 1} (omega arith)).1
            (omega (arith, mul-le-mul_right {m = m} {n = max m d} s (omega arith))) in
        omega arith

-- A failed task changes the average of the successful ones too: with a success before and a reported
-- time of zero, as the coordinator gives for a worker that did not answer, a positive average gets
-- strictly smaller, and no counter of successes has moved.
pub finish-average_failed :
    (m s : ℕ) (w : WorkerInfo)
    → w.avg_compile_time ≡ pos m
    → w.successful_tasks ≡ pos (suc s)
    → s < half64
    → 0 < m
    → m * s < half64
    → (a : ℕ) × ((finish false (pos 0) w).avg_compile_time ≡ pos a)
      × (a < m)
      × ((finish false (pos 0) w).successful_tasks ≡ w.successful_tasks)
finish-average_failed m s w hm hs ks pm ko = (
  (m * s + 0) / suc s,
  rw (finish-average false (pos 0) w) (
      average-pos m s 0 (tally false (release w)) ((failed-fields w).0 ∙ hm)
        ((failed-fields w).1 ∙ hs) ks (omega arith)),
  (div-lt_iff_lt-mul (omega arith)).1 (omega arith),
  finish-success w,
)
