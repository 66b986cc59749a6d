-- ===== src/Zephyr/Calls.antt =====
-- Calls of a driver or of a stack in a given order, each made only if those before it have
-- returned 0: what a set-up is compared with.
use pcan_alterative.Base.{◌≡◌, refl, List, [], ◌∷◌, Result, ok, err}

-- The calls made, and the result of the last one.
abbrev pub after {ℓ} :
    {C : Type ℓ} → C → Result (Unit {0}) → List C × Result (Unit {0}) → List C × Result (Unit {0})
after c (ok done) (made, ret) = (c ∷ made, ret)
after c (err e) later = (c ∷ [], err e)

-- The calls `cs` in turn, until one of them fails; `reply` is what each of them returns.
abbrev pub attempt {ℓ} :
    {C : Type ℓ} → (C → Result (Unit {0})) → List C → List C × Result (Unit {0})
attempt reply [] = ([], ok tt)
attempt reply (c ∷ cs) = after c (reply c) (attempt reply cs)

pub after_one {ℓ} :
    {C : Type ℓ} (c : C) (ret : Result (Unit {0})) → after c ret ([], ok tt) ≡ (c ∷ [], ret)
after_one c (ok done) = refl
after_one c (err e) = refl
