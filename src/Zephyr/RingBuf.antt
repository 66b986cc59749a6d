-- ===== src/Zephyr/RingBuf.antt =====
-- Zephyr's `sys/ring_buffer.h`, which the links and the logger call: a parameter of the models.
use pcan_alterative.Base.{ℕ, ◌+◌, ◌≤◌, ◌≡◌, List, ◌++◌, length, take, drop, min}

-- `put` returns the number of bytes it has stored, `get` the bytes that it has taken out.
pub record RingBuf : Type 1 where
  pub Ring : Type 0
  pub put : Ring → List ℕ → Ring × ℕ
  pub get : Ring → ℕ → Ring × List ℕ
  pub space_get : Ring → ℕ
  pub size_get : Ring → ℕ

-- The documented behaviour: a queue of bytes of a fixed capacity, which stores what fits.
pub record RingBufLaws (rb : RingBuf) : Type 0 where
  pub contents : rb.Ring → List ℕ
  pub capacity : rb.Ring → ℕ
  pub bounded : (r : rb.Ring) → length (contents r) ≤ capacity r
  pub space : (r : rb.Ring) → rb.space_get r + length (contents r) ≡ capacity r
  pub size : (r : rb.Ring) → rb.size_get r ≡ length (contents r)
  pub put_stores :
      (r : rb.Ring) (xs : List ℕ)
      → contents (rb.put r xs).0 ≡ contents r ++ take (rb.space_get r) xs
  pub put_count : (r : rb.Ring) (xs : List ℕ) → (rb.put r xs).1 ≡ min (rb.space_get r) (length xs)
  pub put_capacity : (r : rb.Ring) (xs : List ℕ) → capacity (rb.put r xs).0 ≡ capacity r
  pub get_takes : (r : rb.Ring) (n : ℕ) → (rb.get r n).1 ≡ take n (contents r)
  pub get_leaves : (r : rb.Ring) (n : ℕ) → contents (rb.get r n).0 ≡ drop n (contents r)
  pub get_capacity : (r : rb.Ring) (n : ℕ) → capacity (rb.get r n).0 ≡ capacity r
