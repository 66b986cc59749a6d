-- ===== src/Doip/Message/Run.antt =====
-- Runs of whole DoIP messages, and what `emit` answers.
use native.Mathlib.Decide.{dec_le}
use pcan_alterative.Base.{ℕ, ◌+◌, ◌^◌, ◌≤◌, ◌<◌, ◌≡◌, List, [], ◌∷◌, ◌++◌, Result, ok, err}
use pcan_alterative.Base.{enomem, length, append-nil, append_assoc, arith}
use pcan_alterative.Base.ByteOrder.{ByteOrder, ByteOrderLaws}
use pcan_alterative.Doip.Message.{emit, emit_generic_nack}
use pcan_alterative.Doip.Message.Header.{message, length-message, emit-fits}

-- A run of whole messages, each with a type of two bytes and a length of four.
pub data AreMessages (bo : ByteOrder) : List ℕ → Type 0 where
  end : AreMessages bo []
  more :
      {rest : List ℕ} (type : ℕ) (payload : List ℕ)
      → type < 2 ^ 16
      → length payload < 2 ^ 32
      → AreMessages bo rest
      → AreMessages bo (message bo type payload ++ rest)

-- The only error is a response buffer that is too small, and 45 bytes are enough for every answer.
pub data Answers (bo : ByteOrder) (resp_size : ℕ) (r : Result (List ℕ)) : Type 0 where
  sent :
      (bytes : List ℕ)
      → r ≡ ok bytes
      → AreMessages bo bytes
      → length bytes ≤ resp_size
      → Answers bo resp_size r
  no_room : r ≡ err enomem → resp_size < 45 → Answers bo resp_size r

module _ (bo : ByteOrder) (laws : ByteOrderLaws bo) where
  pub one-AreMessages :
      (type : ℕ) (payload : List ℕ)
      → type < 2 ^ 16
      → length payload < 2 ^ 32
      → AreMessages bo (message bo type payload)
  one-AreMessages type payload ht hp =
      let m : AreMessages bo (message bo type payload ++ []) = more type payload ht hp end in
      rw (append-nil (message bo type payload)) at m

  pub emit-enomem :
      (resp_size type : ℕ) (payload : List ℕ)
      → length payload + 8 < 2 ^ 32
      → resp_size < length payload + 8
      → emit bo resp_size type payload ≡ err enomem
  unfolding emit
  emit-enomem resp_size type payload h1 h2 = ground arith

  pub emit-Answers :
      (resp_size type : ℕ) (payload : List ℕ)
      → type < 2 ^ 16
      → length payload ≤ 32
      → Answers bo resp_size (emit bo resp_size type payload)
  emit-Answers resp_size type payload ht hp = elim (dec_le (length payload + 8) resp_size) [
    | yes fits ↦
        sent (message bo type payload) (emit-fits bo laws resp_size type payload (omega arith) fits)
          (one-AreMessages type payload ht (omega arith))
          (omega (arith, length-message bo laws type payload))
    | no small ↦
        no_room (emit-enomem resp_size type payload (omega arith) (omega arith)) (omega arith)
  ]

  pub AreMessages-append :
      {xs ys : List ℕ} → AreMessages bo xs → AreMessages bo ys → AreMessages bo (xs ++ ys)
  AreMessages-append end b = b
  AreMessages-append {ys = ys} (more {rest = rest} type payload ht hp a) b =
      rw (append_assoc (message bo type payload) rest ys)
        (more type payload ht hp (AreMessages-append a b))

  pub nack-Answers :
      (resp_size code : ℕ) → Answers bo resp_size (emit_generic_nack bo resp_size code)
  unfolding emit_generic_nack
  nack-Answers resp_size code = emit-Answers resp_size 0 (code ∷ []) (omega arith) (omega arith)
