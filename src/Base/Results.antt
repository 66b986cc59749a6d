-- ===== src/Base/Results.antt =====
-- The negative results of the sources, as values: `err e` is `return -e`.

use mathlib.Core.Logic.{◌⊎◌, inl, inr}
use mathlib.Core.Path.{◌≡◌, ap, refl}

pub data Errno : Type 0 where
  einval enomem ebadmsg enospc enotconn ealready eperm enodev enotsup : Errno
  -- An error that a called library reports.
  other : Errno

-- What a C function hands back: a negative number, or what it is asked for.
pub data Result {κ} (X : Type κ) : Type κ where
  err : Errno → Result X
  ok : X → Result X

infixl 5 ◌>>◌ ◌>>=◌
-- `if (rc < 0) { return rc; }` between two calls whose results carry nothing on.
abbrev pub ◌>>◌ {κ} : {Y : Type κ} → Result (Unit {0}) → Result Y → Result Y
err rc >> next = err rc
ok done >> next = next

-- The same where the first result is used.
abbrev pub ◌>>=◌ {κ μ} : {X : Type κ} {Y : Type μ} → Result X → (X → Result Y) → Result Y
err rc >>= next = err rc
ok x >>= next = next x

pub >>=-ok {ℓ κ} :
    {A : Type ℓ} {B : Type κ} {m : Result A} {a : A} (f : A → Result B) → m ≡ ok a → (m >>= f) ≡ f a
>>=-ok f e = ap (λ m. m >>= f) e

pub Result-cases {ℓ} :
    {A : Type ℓ} (m : Result A) → ((a : A) × (m ≡ ok a)) ⊎ ((e : Errno) × (m ≡ err e))
Result-cases (ok a) = inl (a, refl)
Result-cases (err e) = inr (e, refl)
