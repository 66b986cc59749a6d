-- ===== src/Doip/SelfTest/Fields.antt =====
-- What a reader finds in a DoIP message that has anything behind it.
use pcan_alterative.Base.{ℕ, ◌+◌, ◌^◌, ◌<◌, ◌≡◌, refl, ◌∙◌, List, ◌∷◌, ◌++◌}
use pcan_alterative.Base.{length, length-append, slice, byte_at, arith, append_assoc}
use pcan_alterative.Base.{take-append_length, slice-skip, byte_at-skip}
use pcan_alterative.Base.ByteOrder.{ByteOrder, ByteOrderLaws}
use pcan_alterative.Doip.Message.Header.{message}
use pcan_alterative.Doip.Tcp.Activation.{length-addressed}

module _ (bo : ByteOrder) (laws : ByteOrderLaws bo) where
  -- What is read back of a message with anything behind it.
  pub type_read :
      (type : ℕ) (payload rest : List ℕ)
      → type < 2 ^ 16
      → bo.get_be16 (slice (message bo type payload ++ rest) 2 2) ≡ type
  unfolding message
  type_read type payload rest h =
      rw
        (
          append_assoc (bo.put_be16 type) (bo.put_be32 (length payload) ++ payload) rest,
          take-append_length 2 (bo.put_be16 type)
              ((bo.put_be32 (length payload) ++ payload) ++ rest) (laws.be16.length_put type),
        )
        (laws.be16.get_put type h)

  abbrev header : ℕ → ℕ → List ℕ
  header type n = 2 ∷ 0xfd ∷ (bo.put_be16 type ++ bo.put_be32 n)

  length-header : (type n : ℕ) → length (header type n) ≡ 8
  length-header type n = omega (
    arith,
    length-append (bo.put_be16 type) (bo.put_be32 n),
    laws.be16.length_put type,
    laws.be32.length_put n,
  )

  append_assoc_message :
      (type : ℕ) (payload rest : List ℕ)
      → message bo type payload ++ rest ≡ header type (length payload) ++ (payload ++ rest)
  unfolding message
  append_assoc_message type payload rest =
      let t = bo.put_be16 type in
      let n = bo.put_be32 (length payload) in
      rw
        (
          append_assoc t (n ++ payload) rest,
          append_assoc n payload rest,
          append_assoc t n (payload ++ rest),
        )
        refl

  abbrev front : ℕ → ℕ → ℕ → List ℕ → List ℕ
  front type source target xs =
      header type (4 + length xs) ++ (bo.put_be16 source ++ bo.put_be16 target)

  -- What is read back behind the two addresses of a message with anything behind it.
  behind :
      (type source target : ℕ) (xs rest : List ℕ)
      → (message bo type (bo.put_be16 source ++ (bo.put_be16 target ++ xs)) ++ rest
          ≡ front type source target xs ++ (xs ++ rest))
        × (length (front type source target xs) ≡ 12)
  behind type source target xs rest =
      let a = bo.put_be16 source in
      let b = bo.put_be16 target in
      let n = length-addressed bo laws source target xs in
      (
        append_assoc_message type (a ++ (b ++ xs)) rest
            ∙ rw
                (
                  n,
                  append_assoc a (b ++ xs) rest,
                  append_assoc b xs rest,
                  append_assoc (header type (4 + length xs)) (a ++ b) (xs ++ rest),
                  append_assoc a b (xs ++ rest),
                )
                refl,
        omega (
          arith,
          length-append (header type (4 + length xs)) (a ++ b),
          length-header type (4 + length xs),
          length-append a b,
          laws.be16.length_put source,
          laws.be16.length_put target,
        ),
      )

  pub byte_behind :
      (type source target i : ℕ) (xs rest : List ℕ)
      → byte_at
          (message bo type (bo.put_be16 source ++ (bo.put_be16 target ++ xs)) ++ rest)
          (12 + i)
        ≡ byte_at (xs ++ rest) i
  byte_behind type source target i xs rest =
      let (split, twelve) = behind type source target xs rest in
      rw split (byte_at-skip 12 i (front type source target xs) (xs ++ rest) twelve)

  pub slice_behind :
      (type source target i n : ℕ) (xs rest : List ℕ)
      → slice
          (message bo type (bo.put_be16 source ++ (bo.put_be16 target ++ xs)) ++ rest)
          (12 + i)
          n
        ≡ slice (xs ++ rest) i n
  slice_behind type source target i n xs rest =
      let (split, twelve) = behind type source target xs rest in
      rw split (slice-skip 12 i n (front type source target xs) (xs ++ rest) twelve)
