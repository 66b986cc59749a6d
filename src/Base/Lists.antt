-- ===== src/Base/Lists.antt =====
-- Byte arrays as lists with native indices.
use Prim.Native.Nat.{ℕ, zero, suc, ◌+◌, ◌-◌, ◌%◌, ◌≤◌, ◌<◌, min}
use mathlib.Core.Path.{◌≡◌, refl, ap, ◌∙◌}
use mathlib.Core.List.{List, [], ◌∷◌, ◌++◌}
use native.Mathlib.Omega.{arith}

module _ {ℓ} {A : Type ℓ} where
  abbrev pub length : List A → ℕ
  length [] = 0
  length (x ∷ xs) = suc (length xs)

  abbrev pub get_or : List A → ℕ → A → A
  get_or [] i d = d
  get_or (x ∷ xs) zero d = x
  get_or (x ∷ xs) (suc i) d = get_or xs i d

  abbrev pub take : ℕ → List A → List A
  take zero xs = []
  take (suc n) [] = []
  take (suc n) (x ∷ xs) = x ∷ take n xs

  abbrev pub drop : ℕ → List A → List A
  drop zero xs = xs
  drop (suc n) [] = []
  drop (suc n) (x ∷ xs) = drop n xs

  abbrev pub replicate : ℕ → A → List A
  replicate zero a = []
  replicate (suc n) a = a ∷ replicate n a

  abbrev pub flatten : List (List A) → List A
  flatten [] = []
  flatten (x ∷ xs) = x ++ flatten xs

  abbrev pub All {κ} : (A → Type κ) → List A → Type κ
  All P [] = Unit
  All P (x ∷ xs) = P x × All P xs

-- The `n` bytes from offset `i` on, as `memcpy(dst, &xs[i], n)` reads them.
abbrev pub slice : List ℕ → ℕ → ℕ → List ℕ
slice xs i n = take n (drop i xs)

-- xs[i]. A read out of range gives 0 here, and `slice` what there is. The reads of the sources stay in
-- range, but for those of `doip_handle_tcp` when a stated length of 2^32 - 8 or more has passed its
-- check; there the model's bytes are not those that the code would read.
abbrev pub byte_at : List ℕ → ℕ → ℕ
byte_at xs i = get_or xs i 0

abbrev pub IsByte : ℕ → Type 0
IsByte b = b < 256

abbrev pub AreBytes : List ℕ → Type 0
AreBytes xs = All IsByte xs

module _ {ℓ} {A : Type ℓ} where
  pub length-append : (xs ys : List A) → length (xs ++ ys) ≡ length xs + length ys
  length-append [] ys = omega arith
  length-append (x ∷ xs) ys = omega (arith, length-append xs ys)

  pub length-take : (n : ℕ) (xs : List A) → length (take n xs) ≡ min n (length xs)
  length-take zero xs = omega arith
  length-take (suc n) [] = omega arith
  length-take (suc n) (x ∷ xs) = omega (arith, length-take n xs)

  pub length-drop : (n : ℕ) (xs : List A) → length (drop n xs) ≡ length xs - n
  length-drop zero xs = omega arith
  length-drop (suc n) [] = omega arith
  length-drop (suc n) (x ∷ xs) = omega (arith, length-drop n xs)

  pub length-replicate : (n : ℕ) (a : A) → length (replicate n a) ≡ n
  length-replicate zero a = refl
  length-replicate (suc n) a = ap suc (length-replicate n a)

  pub take-append-drop : (n : ℕ) (xs : List A) → take n xs ++ drop n xs ≡ xs
  take-append-drop zero xs = refl
  take-append-drop (suc n) [] = refl
  take-append-drop (suc n) (x ∷ xs) = ap (λ t. x ∷ t) (take-append-drop n xs)

  pub take-append_length : (n : ℕ) (xs ys : List A) → length xs ≡ n → take n (xs ++ ys) ≡ xs
  take-append_length zero [] ys h = refl
  take-append_length zero (x ∷ xs) ys h = absurd (omega arith)
  take-append_length (suc n) [] ys h = absurd (omega arith)
  take-append_length (suc n) (x ∷ xs) ys h =
      ap (λ t. x ∷ t) (take-append_length n xs ys (omega arith))

  pub drop-append_length : (n : ℕ) (xs ys : List A) → length xs ≡ n → drop n (xs ++ ys) ≡ ys
  drop-append_length zero [] ys h = refl
  drop-append_length zero (x ∷ xs) ys h = absurd (omega arith)
  drop-append_length (suc n) [] ys h = absurd (omega arith)
  drop-append_length (suc n) (x ∷ xs) ys h = drop-append_length n xs ys (omega arith)

  pub take-append_le : (n : ℕ) (xs ys : List A) → n ≤ length xs → take n (xs ++ ys) ≡ take n xs
  take-append_le zero xs ys h = refl
  take-append_le (suc n) [] ys h = absurd (omega arith)
  take-append_le (suc n) (x ∷ xs) ys h = ap (λ t. x ∷ t) (take-append_le n xs ys (omega arith))

  pub drop-append_le :
      (n : ℕ) (xs ys : List A) → n ≤ length xs → drop n (xs ++ ys) ≡ drop n xs ++ ys
  drop-append_le zero xs ys h = refl
  drop-append_le (suc n) [] ys h = absurd (omega arith)
  drop-append_le (suc n) (x ∷ xs) ys h = drop-append_le n xs ys (omega arith)

  pub take-all : (n : ℕ) (xs : List A) → length xs ≤ n → take n xs ≡ xs
  take-all zero [] h = refl
  take-all zero (x ∷ xs) h = absurd (omega arith)
  take-all (suc n) [] h = refl
  take-all (suc n) (x ∷ xs) h = ap (λ t. x ∷ t) (take-all n xs (omega arith))

  pub drop-all : (n : ℕ) (xs : List A) → length xs ≤ n → drop n xs ≡ []
  drop-all zero [] h = refl
  drop-all zero (x ∷ xs) h = absurd (omega arith)
  drop-all (suc n) [] h = refl
  drop-all (suc n) (x ∷ xs) h = drop-all n xs (omega arith)

  pub nil_of_length : (xs : List A) → length xs ≡ 0 → xs ≡ []
  nil_of_length [] h = refl
  nil_of_length (x ∷ xs) h = absurd (omega arith)

  pub take-take : (n m : ℕ) (xs : List A) → n ≤ m → take n (take m xs) ≡ take n xs
  take-take zero m xs h = refl
  take-take (suc n) zero xs h = absurd (omega arith)
  take-take (suc n) (suc m) [] h = refl
  take-take (suc n) (suc m) (x ∷ xs) h = ap (λ t. x ∷ t) (take-take n m xs (omega arith))

  pub get_or-append_length :
      (n : ℕ) (xs : List A) (y : A) (ys : List A) (d : A)
      → length xs ≡ n
      → get_or (xs ++ (y ∷ ys)) n d ≡ y
  get_or-append_length zero [] y ys d h = refl
  get_or-append_length zero (x ∷ xs) y ys d h = absurd (omega arith)
  get_or-append_length (suc n) [] y ys d h = absurd (omega arith)
  get_or-append_length (suc n) (x ∷ xs) y ys d h = get_or-append_length n xs y ys d (omega arith)

  pub drop-drop : (n m : ℕ) (xs : List A) → drop (n + m) xs ≡ drop m (drop n xs)
  drop-drop zero m xs = ap (λ k. drop k xs) (omega arith)
  drop-drop (suc n) zero [] = ap (λ k. drop k []) (let e : suc n + 0 ≡ suc n = omega arith in e)
  drop-drop (suc n) (suc m) [] =
      ap (λ k. drop k []) (let e : suc n + suc m ≡ suc (n + suc m) = omega arith in e)
  drop-drop (suc n) m (x ∷ xs) =
      ap (λ k. drop k (x ∷ xs)) (let e : suc n + m ≡ suc (n + m) = omega arith in e)
      ∙ drop-drop n m xs

-- Reading back a field of a record that was laid out by `++`.
pub slice-middle :
    (i n : ℕ) (xs ys zs : List ℕ)
    → length xs ≡ i
    → length ys ≡ n
    → slice (xs ++ (ys ++ zs)) i n ≡ ys
slice-middle i n xs ys zs hx hy =
    rw (drop-append_length i xs (ys ++ zs) hx) (take-append_length n ys zs hy)

pub slice-append_le :
    (i n : ℕ) (xs ys : List ℕ) → i + n ≤ length xs → slice (xs ++ ys) i n ≡ slice xs i n
slice-append_le i n xs ys h =
    rw (drop-append_le i xs ys (omega arith))
      (take-append_le n (drop i xs) ys (omega (arith, length-drop i xs)))

pub slice-last :
    (i n : ℕ) (xs ys : List ℕ) → length xs ≡ i → length ys ≡ n → slice (xs ++ ys) i n ≡ ys
slice-last i n xs ys hx hy = rw (drop-append_length i xs ys hx) (take-all n ys (omega arith))

pub slice-skip :
    (k i n : ℕ) (xs ys : List ℕ) → length xs ≡ k → slice (xs ++ ys) (k + i) n ≡ slice ys i n
slice-skip zero i n [] ys h = ap (λ j. slice ys j n) (omega arith)
slice-skip zero i n (x ∷ xs) ys h = absurd (omega arith)
slice-skip (suc k) i n [] ys h = absurd (omega arith)
slice-skip (suc k) i n (x ∷ xs) ys h =
    ap (λ j. slice (x ∷ (xs ++ ys)) j n) (let e : suc k + i ≡ suc (k + i) = omega arith in e)
    ∙ slice-skip k i n xs ys (omega arith)

pub byte_at-skip :
    (k i : ℕ) (xs ys : List ℕ) → length xs ≡ k → byte_at (xs ++ ys) (k + i) ≡ byte_at ys i
byte_at-skip zero i [] ys h = ap (byte_at ys) (omega arith)
byte_at-skip zero i (x ∷ xs) ys h = absurd (omega arith)
byte_at-skip (suc k) i [] ys h = absurd (omega arith)
byte_at-skip (suc k) i (x ∷ xs) ys h =
    ap (byte_at (x ∷ (xs ++ ys))) (let e : suc k + i ≡ suc (k + i) = omega arith in e)
    ∙ byte_at-skip k i xs ys (omega arith)

module _ {ℓ κ} {A : Type ℓ} (P : A → Type κ) where
  pub All-append : (xs ys : List A) → All P xs → All P ys → All P (xs ++ ys)
  All-append [] ys hx hy = hy
  All-append (x ∷ xs) ys hx hy = (hx.0, All-append xs ys hx.1 hy)

  pub All-take : (n : ℕ) (xs : List A) → All P xs → All P (take n xs)
  All-take zero xs h = tt
  All-take (suc n) [] h = tt
  All-take (suc n) (x ∷ xs) h = (h.0, All-take n xs h.1)

  pub All-drop : (n : ℕ) (xs : List A) → All P xs → All P (drop n xs)
  All-drop zero xs h = h
  All-drop (suc n) [] h = tt
  All-drop (suc n) (x ∷ xs) h = All-drop n xs h.1

  pub All-replicate : (n : ℕ) (a : A) → P a → All P (replicate n a)
  All-replicate zero a h = tt
  All-replicate (suc n) a h = (h, All-replicate n a h)

-- A list is its fields, one behind the other.
pub slice-drop : (i n : ℕ) (xs : List ℕ) → slice xs i n ++ drop (i + n) xs ≡ drop i xs
slice-drop i n xs = ap (λ t. slice xs i n ++ t) (drop-drop i n xs) ∙ take-append-drop n (drop i xs)

pub byte_at-drop :
    (i : ℕ) (xs : List ℕ) → i < length xs → byte_at xs i ∷ drop (i + 1) xs ≡ drop i xs
byte_at-drop i [] h = absurd (omega arith)
byte_at-drop zero (x ∷ xs) h = refl
byte_at-drop (suc i) (x ∷ xs) h =
    ap (λ j. byte_at xs i ∷ drop j (x ∷ xs)) (let e : suc i + 1 ≡ suc (i + 1) = omega arith in e)
    ∙ byte_at-drop i xs (omega arith)

pub byte_at-IsByte : (i : ℕ) (xs : List ℕ) → AreBytes xs → IsByte (byte_at xs i)
byte_at-IsByte i [] h = omega arith
byte_at-IsByte zero (x ∷ xs) (h, hs) = h
byte_at-IsByte (suc i) (x ∷ xs) (h, hs) = byte_at-IsByte i xs hs

pub length-slice : (i n : ℕ) (xs : List ℕ) → i + n ≤ length xs → length (slice xs i n) ≡ n
length-slice i n xs h = omega (arith, length-take n (drop i xs), length-drop i xs)

pub slice-AreBytes : (i n : ℕ) (xs : List ℕ) → AreBytes xs → AreBytes (slice xs i n)
slice-AreBytes i n xs h = All-take IsByte n (drop i xs) (All-drop IsByte i xs h)

-- `(uint8_t)(i + b)` for the values of `b` below `n`
abbrev pub bytes_from : ℕ → ℕ → List ℕ
bytes_from zero i = []
bytes_from (suc n) i = i % 256 ∷ bytes_from n (i + 1)

pub bytes_from-AreBytes : (n i : ℕ) → AreBytes (bytes_from n i)
bytes_from-AreBytes zero i = tt
bytes_from-AreBytes (suc n) i = (omega arith, bytes_from-AreBytes n (i + 1))

pub length-bytes_from : (n i : ℕ) → length (bytes_from n i) ≡ n
length-bytes_from zero i = refl
length-bytes_from (suc n) i = ap suc (length-bytes_from n (i + 1))
