-- ===== src/Zephyr/Can.antt =====
-- Zephyr's `drivers/can.h` and its message queue `k_msgq`, which the CAN logger calls: parameters of
-- the models.
use pcan_alterative.Base.{
  ℕ, ◌<◌, ◌≡◌, Bool, true, false, not, List, [], ◌∷◌, ◌++◌, Option, none, some,
}
use pcan_alterative.Base.{length, bit_or, bit_and, ◌==◌, if◌then◌else◌}

-- The frame flags CAN_FRAME_*, and the bytes that a DLC stands for.
pub record CanApi : Type 0 where
  pub can_frame_fdf : ℕ
  pub can_frame_brs : ℕ
  pub can_frame_esi : ℕ
  pub can_frame_ide : ℕ
  pub can_frame_rtr : ℕ
  pub can_dlc_to_bytes : ℕ → ℕ

-- `x & flag`, as a test.
abbrev pub has : ℕ → ℕ → Bool
has x flag = not (bit_and x flag == 0)

-- `if (b) { o |= flag; }`
abbrev pub or_if : Bool → ℕ → ℕ → ℕ
or_if b flag o = if b then bit_or o flag else o

-- Five flags, each set or not.
abbrev pub combine : (fdf brs esi ide rtr : ℕ) → Bool → Bool → Bool → Bool → Bool → ℕ
combine fdf brs esi ide rtr a b c d e =
    or_if e rtr (or_if d ide (or_if c esi (or_if b brs (or_if a fdf 0))))

-- The flags are bits of their own: in a combination of them each is read back.
pub record AreFlags (fdf brs esi ide rtr : ℕ) : Type 0 where
  pub reads :
      (a b c d e : Bool)
      → let x = combine fdf brs esi ide rtr a b c d e in
        (has x fdf ≡ a) × (has x brs ≡ b) × (has x esi ≡ c) × (has x ide ≡ d) × (has x rtr ≡ e)

pub record CanApiLaws (api : CanApi) : Type 0 where
  pub flags :
      AreFlags api.can_frame_fdf api.can_frame_brs api.can_frame_esi api.can_frame_ide
        api.can_frame_rtr

-- `k_msgq_put` without waiting, and whether it returned 0; `k_msgq_get` with what it gives in time.
pub record MsgQueue (A : Type 0) : Type 1 where
  pub Queue : Type 0
  pub put : Queue → A → Queue × Bool
  pub get : Queue → Queue × Option A

-- What a queue with a message gives, and one without.
abbrev pub first {ℓ} : {A : Type ℓ} → List A → Option A
first [] = none
first (x ∷ xs) = some x

abbrev pub rest {ℓ} : {A : Type ℓ} → List A → List A
rest [] = []
rest (x ∷ xs) = xs

-- The documented behaviour: messages come out in the order they went in, and `put` fails only on a
-- full queue.
pub record MsgQueueLaws {A : Type 0} (q : MsgQueue A) : Type 0 where
  pub queued : q.Queue → List A
  pub slots : ℕ
  pub put_taken :
      (s : q.Queue) (a : A) → (q.put s a).1 ≡ true → queued (q.put s a).0 ≡ queued s ++ (a ∷ [])
  pub put_refused : (s : q.Queue) (a : A) → (q.put s a).1 ≡ false → queued (q.put s a).0 ≡ queued s
  pub put_free : (s : q.Queue) (a : A) → length (queued s) < slots → (q.put s a).1 ≡ true
  pub get_first : (s : q.Queue) → (q.get s).1 ≡ first (queued s)
  pub get_rest : (s : q.Queue) → queued (q.get s).0 ≡ rest (queued s)
