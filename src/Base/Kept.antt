-- ===== src/Base/Kept.antt =====
-- What is left of a list when some of its elements are lost.
use Prim.Native.Nat.{ℕ, suc, ◌+◌, ◌≤◌}
use mathlib.Core.Path.{◌≡◌, refl, ap, subst, ◌∙◌}
use mathlib.Core.Option.{Option, none, some}
use mathlib.Core.List.{List, [], ◌∷◌, ◌++◌, map}
use native.Mathlib.Omega.{arith}
use pcan_alterative.Base.Lists.{length, All}

-- `Kept xs ys lost`: `ys` is `xs`, in its order, without `lost` of its elements.
pub data Kept {ℓ} {A : Type ℓ} : List A → List A → ℕ → Type ℓ where
  none_left : Kept [] [] 0
  kept : {xs ys : List A} {lost : ℕ} (x : A) → Kept xs ys lost → Kept (x ∷ xs) (x ∷ ys) lost
  lose : {xs ys : List A} {lost : ℕ} (x : A) → Kept xs ys lost → Kept (x ∷ xs) ys (suc lost)

-- The same without the number.
abbrev pub IsSublist {ℓ} : {A : Type ℓ} → List A → List A → Type ℓ
IsSublist ys xs = (lost : ℕ) × Kept xs ys lost

abbrev pub cons_some {ℓ} : {A : Type ℓ} → Option A → List A → List A
cons_some none xs = xs
cons_some (some x) xs = x ∷ xs

abbrev pub collect {ℓ κ} : {A : Type ℓ} {B : Type κ} → (A → Option B) → List A → List B
collect f [] = []
collect f (x ∷ xs) = cons_some (f x) (collect f xs)

module _ {ℓ} {A : Type ℓ} where
  pub Kept-all : (xs : List A) → Kept xs xs 0
  Kept-all [] = none_left
  Kept-all (x ∷ xs) = kept x (Kept-all xs)

  -- What is not yet handled counts as lost.
  pub Kept-prefix : (xs ys : List A) → Kept (xs ++ ys) xs (length ys)
  Kept-prefix [] [] = none_left
  Kept-prefix [] (y ∷ ys) = lose y (Kept-prefix [] ys)
  Kept-prefix (x ∷ xs) ys = kept x (Kept-prefix xs ys)

  pub Kept-count : {xs ys : List A} {m n : ℕ} → m ≡ n → Kept xs ys m → Kept xs ys n
  Kept-count {xs = xs} {ys = ys} e k = subst (Kept xs ys) e k

  pub Kept-trans : {xs ys zs : List A} {m n : ℕ} → Kept xs ys m → Kept ys zs n → Kept xs zs (m + n)
  Kept-trans none_left b = Kept-count (omega arith) b
  Kept-trans (lose x a) b = Kept-count (omega arith) (lose x (Kept-trans a b))
  Kept-trans (kept x a) (kept y b) = kept x (Kept-trans a b)
  Kept-trans (kept x a) (lose y b) = Kept-count (omega arith) (lose x (Kept-trans a b))

  pub Kept-All {κ} : (P : A → Type κ) {xs ys : List A} {n : ℕ} → Kept xs ys n → All P xs → All P ys
  Kept-All P none_left h = tt
  Kept-All P (kept x k) (h, hs) = (h, Kept-All P k hs)
  Kept-All P (lose x k) (h, hs) = Kept-All P k hs

  pub Kept-append :
      {xs ys xs' ys' : List A} {m n : ℕ}
      → Kept xs ys m
      → Kept xs' ys' n
      → Kept (xs ++ xs') (ys ++ ys') (m + n)
  Kept-append none_left b = Kept-count (omega arith) b
  Kept-append (kept x a) b = kept x (Kept-append a b)
  Kept-append (lose x a) b = Kept-count (omega arith) (lose x (Kept-append a b))

pub IsSublist-cons_some {ℓ} :
    {A : Type ℓ} (o : Option A) {ys xs : List A}
    → IsSublist ys xs
    → IsSublist (cons_some o ys) (cons_some o xs)
IsSublist-cons_some none s = s
IsSublist-cons_some (some x) (n, k) = (n, kept x k)

pub IsSublist-skip {ℓ} :
    {A : Type ℓ} (o : Option A) {ys xs : List A} → IsSublist ys xs → IsSublist ys (cons_some o xs)
IsSublist-skip none s = s
IsSublist-skip (some x) (n, k) = (suc n, lose x k)

pub collect-IsSublist {ℓ κ} :
    {A : Type ℓ} {B : Type κ} (f : A → Option B) {xs ys : List A} {n : ℕ}
    → Kept xs ys n
    → IsSublist (collect f ys) (collect f xs)
collect-IsSublist f none_left = (0, none_left)
collect-IsSublist f (kept x k) = IsSublist-cons_some (f x) (collect-IsSublist f k)
collect-IsSublist f (lose x k) = IsSublist-skip (f x) (collect-IsSublist f k)

Kept-map {ℓ κ} :
    {A : Type ℓ} {B : Type κ} (f : A → B) {xs ys : List A} {n : ℕ}
    → Kept xs ys n
    → Kept (map f xs) (map f ys) n
Kept-map f none_left = none_left
Kept-map f (kept x k) = kept (f x) (Kept-map f k)
Kept-map f (lose x k) = lose (f x) (Kept-map f k)

pub map-IsSublist {ℓ κ} :
    {A : Type ℓ} {B : Type κ} (f : A → B) {xs ys : List A}
    → IsSublist ys xs
    → IsSublist (map f ys) (map f xs)
map-IsSublist f (n, k) = (n, Kept-map f k)

pub cons_some-append {ℓ} :
    {A : Type ℓ} (o : Option A) (xs : List A) → cons_some o [] ++ xs ≡ cons_some o xs
cons_some-append none xs = refl
cons_some-append (some x) xs = refl

cons_some-in_front {ℓ} :
    {A : Type ℓ} (o : Option A) (ys zs : List A) → cons_some o (ys ++ zs) ≡ cons_some o ys ++ zs
cons_some-in_front none ys zs = refl
cons_some-in_front (some x) ys zs = refl

pub IsSublist-trans {ℓ} :
    {A : Type ℓ} {xs ys zs : List A} → IsSublist ys xs → IsSublist zs ys → IsSublist zs xs
IsSublist-trans (m, a) (n, b) = (m + n, Kept-trans a b)

module _ {ℓ κ} {A : Type ℓ} {B : Type κ} (f : A → Option B) where
  pub collect-append : (xs ys : List A) → collect f (xs ++ ys) ≡ collect f xs ++ collect f ys
  collect-append [] ys = refl
  collect-append (x ∷ xs) ys =
      ap (cons_some (f x)) (collect-append xs ys)
      ∙ cons_some-in_front (f x) (collect f xs) (collect f ys)

  pub collect-map {μ} :
      {C : Type μ} (g : C → A) (xs : List C) → collect f (map g xs) ≡ collect (λ x. f (g x)) xs
  collect-map g [] = refl
  collect-map g (x ∷ xs) = ap (cons_some (f (g x))) (collect-map g xs)

  pub collect-somes :
      (g : A → B) (xs : List A) → All (λ x. f x ≡ some (g x)) xs → collect f xs ≡ map g xs
  collect-somes g [] h = refl
  collect-somes g (x ∷ xs) (h, hs) = rw (h, collect-somes g xs hs) refl

module _ {ℓ} {A : Type ℓ} where
  -- No more is lost than there was.
  pub Kept-le : {xs ys : List A} {n : ℕ} → Kept xs ys n → n ≤ length xs
  Kept-le none_left = omega arith
  Kept-le (kept x k) = omega (arith, Kept-le k)
  Kept-le (lose x k) = omega (arith, Kept-le k)

  -- Where nothing is lost, everything is left.
  pub Kept-whole : {xs ys : List A} {n : ℕ} → Kept xs ys n → n ≡ 0 → ys ≡ xs
  Kept-whole none_left h = refl
  Kept-whole (kept x k) h = ap (λ t. x ∷ t) (Kept-whole k h)
  Kept-whole (lose x k) h = absurd (omega arith)

length-cons_some_le {ℓ} :
    {A : Type ℓ} (o : Option A) (xs : List A) → length (cons_some o xs) ≤ suc (length xs)
length-cons_some_le none xs = omega arith
length-cons_some_le (some x) xs = omega arith

pub length-collect_le {ℓ κ} :
    {A : Type ℓ} {B : Type κ} (f : A → Option B) (xs : List A) → length (collect f xs) ≤ length xs
length-collect_le f [] = omega arith
length-collect_le f (x ∷ xs) =
    omega (arith, length-cons_some_le (f x) (collect f xs), length-collect_le f xs)
