-- ===== src/Examples/Codec.antt =====
-- An instance of the COBS codec for frames below 254 bytes, with its laws.
use pcan_alterative.Base.{
  ℕ, zero, suc, ◌+◌, ◌/◌, ◌≡◌, refl, ap, sym, ◌∙◌, append_assoc, Bool, true, false,
}
use pcan_alterative.Base.{List, [], ◌∷◌, ◌++◌, map, Option, none, some, ok, length, length-append}
use pcan_alterative.Base.{arith, flatten, append-nil, inl, inr, ◌⊎◌, ◌*◌, ◌%◌}
use pcan_alterative.Base.{bit_xor}
use pcan_alterative.Zephyr.{Cobs, Wire, CobsLaws, CobsResync, WireLaws, EndsFrame, decode_run}
use pcan_alterative.Examples.Bytes.{order, order_laws}

-- Up to the first zero, and the encoding of what stands behind it.
abbrev Split : Type 0
Split = List ℕ × List ℕ

abbrev joined : Split → List ℕ
joined (g, r) = suc (length g) ∷ (g ++ r)

abbrev pick : ℕ → Split → Split
pick zero s = ([], joined s)
pick (suc x) (g, r) = (suc x ∷ g, r)

unfoldable pub split : List ℕ → Split
split [] = ([], 0 ∷ [])
split (x ∷ xs) = pick x (split xs)

unfoldable pub encode : List ℕ → List ℕ
unfolding split
encode xs = joined (split xs)

-- `block k`: k bytes of the block are to come; after them a code byte, or the delimiter.
pub data State : Type 0 where
  start : State
  block : ℕ → State

unfoldable pub begin : ℕ → State × List (Option (List ℕ)) × Bool
begin zero = (start, none ∷ [], false)
begin (suc k) = (block k, [], false)

unfoldable pub decode : State → ℕ → State × List (Option (List ℕ)) × Bool
decode start b = begin b
decode (block zero) zero = (start, none ∷ [], false)
decode (block zero) (suc k) = (block k, some (0 ∷ []) ∷ [], false)
decode (block (suc k)) zero = (start, [], true)
decode (block (suc k)) (suc b) = (block k, some (suc b ∷ []) ∷ [], false)

abbrev pub cobs : Cobs
cobs = record {
  Encoder = Unit {0};
  encoder_init = ok tt;
  encoder_write = λ e xs. (encode xs ∷ [], ok tt);
  encoder_close = λ e. ([], ok tt);
  Decoder = State;
  decoder_init = start;
  decoder_write = decode;
}

-- A CRC-16 with the reflected polynomial 0x8408, a byte at a time.
unfoldable pub crc_byte : ℕ → ℕ → ℕ
crc_byte seed b =
    let e = bit_xor seed b % 256 in
    let f = bit_xor e (e * 16 % 256) in
    bit_xor (bit_xor (seed / 256) (f * 256)) (bit_xor (f * 8) (f / 16))

unfoldable pub crc : ℕ → List ℕ → ℕ
unfolding crc_byte
crc seed [] = seed
crc seed (b ∷ bs) = crc (crc_byte seed b) bs

abbrev pub wire : Wire
wire = record { order = order; crc16_ccitt = crc; cobs = cobs }

abbrev singles : List ℕ → List (List ℕ)
singles [] = []
singles (x ∷ xs) = (x ∷ []) ∷ singles xs

flatten-singles : (xs : List ℕ) → flatten (singles xs) ≡ xs
flatten-singles [] = refl
flatten-singles (x ∷ xs) = ap (λ t. x ∷ t) (flatten-singles xs)

decode-split :
    (xs : List ℕ)
    → decode_run wire (block (length (split xs).0)) ((split xs).0 ++ (split xs).1)
      ≡ (start, map some (singles xs) ++ (none ∷ []), false)
unfolding split decode decode_run
decode-split [] = refl
decode-split (zero ∷ xs) = ap (λ r. (r.0, some (0 ∷ []) ∷ r.1, r.2)) (decode-split xs)
decode-split (suc x ∷ xs) = ap (λ r. (r.0, some (suc x ∷ []) ∷ r.1, r.2)) (decode-split xs)

length-split : (xs : List ℕ) → length (split xs).0 + length (split xs).1 ≡ length xs + 1
unfolding split
length-split [] = refl
length-split (zero ∷ xs) = omega (arith, length-split xs, length-append (split xs).0 (split xs).1)
length-split (suc x ∷ xs) = omega (arith, length-split xs)

length-encode : (xs : List ℕ) → length (encode xs) ≡ length xs + 2
unfolding encode
length-encode xs = omega (arith, length-split xs, length-append (split xs).0 (split xs).1)

pub cobs_laws : CobsLaws wire
unfolding encode decode begin decode_run
cobs_laws = record {
  encoding = encode;
  encodes = λ xs h. record {
    enc = tt;
    enc' = tt;
    body = encode xs ∷ [];
    tail = [];
    init_ok = refl;
    write_ok = refl;
    close_ok = refl;
    all_of = append-nil (encode xs ++ []) ∙ append-nil (encode xs);
  };
  length_encoding = λ xs. omega (arith, length-encode xs);
  decodes =
      λ xs h. record { pieces = singles xs; run_ok = decode-split xs; all_of = flatten-singles xs };
}

resets : (d : State) → (decode d 0).0 ≡ start
unfolding decode begin
resets start = refl
resets (block zero) = refl
resets (block (suc k)) = refl

ends : (d : State) → ((decode d 0).2 ≡ true) ⊎ EndsFrame (decode d 0).1
unfolding decode begin
ends start = inr tt
ends (block zero) = inr tt
ends (block (suc k)) = inl refl

pub resync : CobsResync wire
resync = record { delimiter_resets = resets; delimiter_ends = ends }

pub wire_laws : WireLaws wire
wire_laws = record { order_laws = order_laws; cobs_laws = cobs_laws }

-- The last block ends in the delimiter, and each byte but that and the first stands for one.
record Ends (xs : List ℕ) (s : Split) : Type 0 where
  before : List ℕ
  last : s.1 ≡ before ++ (0 ∷ [])
  size : length s.0 + length before ≡ length xs

pick-Ends : (x : ℕ) (xs : List ℕ) (s : Split) → Ends xs s → Ends (x ∷ xs) (pick x s)
pick-Ends zero xs (g, r) e = record {
  before = suc (length g) ∷ (g ++ e.before);
  last =
      ap (λ t. suc (length g) ∷ t)
        (ap (λ t. g ++ t) e.last ∙ sym (append_assoc g e.before (0 ∷ [])));
  size = omega (arith, length-append g e.before, e.size);
}
pick-Ends (suc x) xs (g, r) e = record {
  before = e.before;
  last = e.last;
  size = omega (arith, e.size);
}

split-Ends : (xs : List ℕ) → Ends xs (split xs)
unfolding split
split-Ends [] = record { before = []; last = refl; size = omega arith }
split-Ends (x ∷ xs) = pick-Ends x xs (split xs) (split-Ends xs)

pub encode-ends :
    (xs : List ℕ)
    → (b : ℕ) × (front : List ℕ) × (wire_laws.cobs_laws.encoding xs ≡ (b ∷ front) ++ (0 ∷ []))
      × (length front ≡ length xs)
unfolding encode wire_laws cobs_laws
encode-ends xs =
    let (g, r) = split xs in
    let e = split-Ends xs in
    (
      suc (length g),
      g ++ e.before,
      ap (λ t. suc (length g) ∷ t)
          (ap (λ t. g ++ t) e.last ∙ sym (append_assoc g e.before (0 ∷ []))),
      omega (arith, length-append g e.before, e.size),
    )
