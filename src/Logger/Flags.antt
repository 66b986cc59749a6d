-- ===== src/Logger/Flags.antt =====
-- apps/can_logger/src/main.c: the two maps between the driver's frame flags and those of the wire.
use pcan_alterative.Base.{
  ℕ, suc, zero, ◌+◌, ◌%◌, ◌<◌, ◌≡◌, refl, Bool, true, false, arith, ◌&&◌, ◌==◌, inl, inr, ltb,
  bit_or, ◌*◌, Bool-cases, sym, ap, ◌∙◌,
}
use mathlib.Core.Bool.{false≢true}
use pcan_alterative.Zephyr.Can.{CanApi, CanApiLaws, has, or_if, combine}
use pcan_alterative.Clp.Types.{clp_canf_fdf, clp_canf_brs, clp_canf_esi, clp_canf_ide, clp_canf_rtr}

unfoldable pub clp_flags_from_can : CanApi → ℕ → ℕ
clp_flags_from_can api canf =
    let o0 = or_if (has canf api.can_frame_fdf) clp_canf_fdf 0 in
    let o1 = or_if (has canf api.can_frame_brs) clp_canf_brs o0 in
    let o2 = or_if (has canf api.can_frame_esi) clp_canf_esi o1 in
    let o3 = or_if (has canf api.can_frame_ide) clp_canf_ide o2 in
    or_if (has canf api.can_frame_rtr) clp_canf_rtr o3

unfoldable pub can_flags_from_clp : CanApi → ℕ → ℕ
can_flags_from_clp api clpf =
    let o0 = or_if (has clpf clp_canf_fdf) api.can_frame_fdf 0 in
    let o1 = or_if (has clpf clp_canf_brs) api.can_frame_brs o0 in
    let o2 = or_if (has clpf clp_canf_esi) api.can_frame_esi o1 in
    let o3 = or_if (has clpf clp_canf_ide) api.can_frame_ide o2 in
    or_if (has clpf clp_canf_rtr) api.can_frame_rtr o3

-- The five bits of the wire, put together again.
abbrev rejoined : ℕ → ℕ
rejoined x =
    combine clp_canf_fdf clp_canf_brs clp_canf_esi clp_canf_ide clp_canf_rtr (has x clp_canf_fdf)
      (has x clp_canf_brs) (has x clp_canf_esi) (has x clp_canf_ide) (has x clp_canf_rtr)

abbrev all_below : (ℕ → Bool) → ℕ → Bool
all_below p zero = true
all_below p (suc n) = p n && all_below p n

all_below-holds : (p : ℕ → Bool) (n k : ℕ) → all_below p n ≡ true → k < n → p k ≡ true
all_below-holds p zero k h lt = absurd (omega arith)
all_below-holds p (suc n) k h lt = elim (Bool-cases (p n)) [
  | inr bad ↦ absurd (false≢true (sym (ap (λ b. b && all_below p n) bad) ∙ h))
  | inl good ↦ elim (Bool-cases (k == n)) [
    | inl eq ↦ ap p (ground arith) ∙ good
    | inr ne ↦ all_below-holds p n k (sym (ap (λ b. b && all_below p n) good) ∙ h) (ground arith)
  ]
]

table : all_below (λ x. rejoined x == x % 32) 256 ≡ true
table = refl

rejoined_lem : (x : ℕ) → x < 256 → rejoined x ≡ x % 32
rejoined_lem x h =
    let same = all_below-holds (λ y. rejoined y == y % 32) 256 x table h in ground (arith, same)

-- Whatever bits the driver's flags are, as long as each is read back from their combinations: a
-- host's flag byte, put into the driver's flags and read from them again, keeps its five flags and
-- has no other bit.
pub clp_flags_from_can-can_flags_from_clp :
    (api : CanApi) (x : ℕ)
    → CanApiLaws api
    → x < 256
    → clp_flags_from_can api (can_flags_from_clp api x) ≡ x % 32
unfolding clp_flags_from_can can_flags_from_clp
clp_flags_from_can-can_flags_from_clp api x laws h =
    let (fdf, brs, esi, ide, rtr) =
      laws.flags.reads (has x clp_canf_fdf) (has x clp_canf_brs) (has x clp_canf_esi)
        (has x clp_canf_ide) (has x clp_canf_rtr) in
    rw (fdf, brs, esi, ide, rtr) (rejoined_lem x h)

-- A flag above the bits so far keeps them below the next one.
or_if-lt :
    (f : ℕ) (b : Bool) (o : ℕ)
    → all_below (λ k. ltb (bit_or k f) (2 * f)) f ≡ true
    → o < f
    → or_if b f o < 2 * f
or_if-lt f false o small h = omega arith
or_if-lt f true o small h =
    let fits = all_below-holds (λ k. ltb (bit_or k f) (2 * f)) f o small h in ground (arith, fits)

-- A flag as a digit.
abbrev pub bit : Bool → ℕ
bit false = 0
bit true = 1

-- A flag above the bits so far is added to them.
or_if-add :
    (f : ℕ) (b : Bool) (o : ℕ)
    → all_below (λ k. bit_or k f == k + f) f ≡ true
    → o < f
    → or_if b f o ≡ o + bit b * f
or_if-add f false o sums h = omega arith
or_if-add f true o sums h =
    let same = all_below-holds (λ k. bit_or k f == k + f) f o sums h in ground (arith, same)

pub clp_flags_from_can-bits :
    (api : CanApi) (x : ℕ)
    → clp_flags_from_can api x
      ≡ bit (has x api.can_frame_fdf) * 1
        + bit (has x api.can_frame_brs) * 2
        + bit (has x api.can_frame_esi) * 4
        + bit (has x api.can_frame_ide) * 8
        + bit (has x api.can_frame_rtr) * 16
unfolding clp_flags_from_can
clp_flags_from_can-bits api x =
    let l0 = or_if-lt 1 (has x api.can_frame_fdf) 0 refl (omega arith) in
    let l1 = or_if-lt 2 (has x api.can_frame_brs) _ refl l0 in
    let l2 = or_if-lt 4 (has x api.can_frame_esi) _ refl l1 in
    let l3 = or_if-lt 8 (has x api.can_frame_ide) _ refl l2 in
    omega (
      arith,
      or_if-add 1 (has x api.can_frame_fdf) 0 refl (omega arith),
      or_if-add 2 (has x api.can_frame_brs) _ refl l0,
      or_if-add 4 (has x api.can_frame_esi) _ refl l1,
      or_if-add 8 (has x api.can_frame_ide) _ refl l2,
      or_if-add 16 (has x api.can_frame_rtr) _ refl l3,
    )

pub clp_flags_from_can-lt : (api : CanApi) (x : ℕ) → clp_flags_from_can api x < 256
unfolding clp_flags_from_can
clp_flags_from_can-lt api x =
    let l0 = or_if-lt 1 (has x api.can_frame_fdf) 0 refl (omega arith) in
    let l1 = or_if-lt 2 (has x api.can_frame_brs) _ refl l0 in
    let l2 = or_if-lt 4 (has x api.can_frame_esi) _ refl l1 in
    let l3 = or_if-lt 8 (has x api.can_frame_ide) _ refl l2 in
    let l4 = or_if-lt 16 (has x api.can_frame_rtr) _ refl l3 in omega (arith, l4)
