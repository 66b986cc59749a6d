-- ===== src/Examples/Bytes.antt =====
-- An instance of the byte order helpers, with its laws.
use native.Mathlib.Nat.{pow-suc}
use pcan_alterative.Base.{ℕ, zero, suc, ◌+◌, ◌*◌, ◌/◌, ◌%◌, ◌^◌, ◌<◌, ◌≡◌, refl, sym, ap, ◌∙◌, List}
use pcan_alterative.Base.{
  [], ◌∷◌, ◌++◌, append-nil, append_assoc, length, length-append, AreBytes, IsByte, All-append,
  arith,
}
use pcan_alterative.Base.ByteOrder.{ByteOrder, AreInverse, ByteOrderLaws}

unfoldable pub put_le : ℕ → ℕ → List ℕ
put_le zero v = []
put_le (suc w) v = v % 256 ∷ put_le w (v / 256)

unfoldable pub get_le : List ℕ → ℕ
get_le [] = 0
get_le (b ∷ bs) = b + 256 * get_le bs

unfoldable pub flip : List ℕ → List ℕ
flip [] = []
flip (x ∷ xs) = flip xs ++ (x ∷ [])

flip-append : (xs ys : List ℕ) → flip (xs ++ ys) ≡ flip ys ++ flip xs
unfolding flip
flip-append [] ys = sym (append-nil (flip ys))
flip-append (x ∷ xs) ys =
    ap (λ t. t ++ (x ∷ [])) (flip-append xs ys) ∙ append_assoc (flip ys) (flip xs) (x ∷ [])

flip-flip : (xs : List ℕ) → flip (flip xs) ≡ xs
unfolding flip
flip-flip [] = refl
flip-flip (x ∷ xs) = rw (flip-append (flip xs) (x ∷ []), flip-flip xs)

length-flip : (xs : List ℕ) → length (flip xs) ≡ length xs
unfolding flip
length-flip [] = refl
length-flip (x ∷ xs) = omega (arith, length-append (flip xs) (x ∷ []), length-flip xs)

flip-bytes : (xs : List ℕ) → AreBytes xs → AreBytes (flip xs)
unfolding flip
flip-bytes [] h = tt
flip-bytes (x ∷ xs) h = All-append IsByte (flip xs) (x ∷ []) (flip-bytes xs h.1) (h.0, tt)

length-put_le : (w v : ℕ) → length (put_le w v) ≡ w
unfolding put_le
length-put_le zero v = refl
length-put_le (suc w) v = ap suc (length-put_le w (v / 256))

put_le-bytes : (w v : ℕ) → AreBytes (put_le w v)
unfolding put_le
put_le-bytes zero v = tt
put_le-bytes (suc w) v = (omega arith, put_le-bytes w (v / 256))

get-put_le : (w v : ℕ) → v < 256 ^ w → get_le (put_le w v) ≡ v
unfolding put_le get_le
get-put_le zero v h = omega arith
get-put_le (suc w) v h =
    omega (arith, pow-suc 256 w, get-put_le w (v / 256) (omega (arith, pow-suc 256 w)))

get_le-lt : (w : ℕ) (bs : List ℕ) → length bs ≡ w → AreBytes bs → get_le bs < 256 ^ w
unfolding get_le
get_le-lt zero [] e h = omega arith
get_le-lt zero (b ∷ bs) e h = absurd (omega arith)
get_le-lt (suc w) [] e h = absurd (omega arith)
get_le-lt (suc w) (b ∷ bs) e h = omega (arith, pow-suc 256 w, get_le-lt w bs (omega arith) h.1)

put-get_le : (w : ℕ) (bs : List ℕ) → length bs ≡ w → AreBytes bs → put_le w (get_le bs) ≡ bs
unfolding put_le get_le
put-get_le zero [] e h = refl
put-get_le zero (b ∷ bs) e h = absurd (omega arith)
put-get_le (suc w) [] e h = absurd (omega arith)
put-get_le (suc w) (b ∷ bs) e h =
    let m : (b + 256 * get_le bs) % 256 ≡ b = omega arith in
    let d : (b + 256 * get_le bs) / 256 ≡ get_le bs = omega arith in
    rw (m, d) (ap (λ t. b ∷ t) (put-get_le w bs (omega arith) h.1))

le-AreInverse : (w : ℕ) → AreInverse w (put_le w) get_le
le-AreInverse w = record {
  length_put = length-put_le w;
  put_bytes = put_le-bytes w;
  get_put = get-put_le w;
  get_bound = get_le-lt w;
  put_get = put-get_le w;
}

abbrev put_be : ℕ → ℕ → List ℕ
put_be w v = flip (put_le w v)

abbrev get_be : List ℕ → ℕ
get_be bs = get_le (flip bs)

be-AreInverse : (w : ℕ) → AreInverse w (put_be w) get_be
be-AreInverse w = record {
  length_put = λ v. length-flip (put_le w v) ∙ length-put_le w v;
  put_bytes = λ v. flip-bytes (put_le w v) (put_le-bytes w v);
  get_put = λ v h. ap get_le (flip-flip (put_le w v)) ∙ get-put_le w v h;
  get_bound = λ bs e h. get_le-lt w (flip bs) (length-flip bs ∙ e) (flip-bytes bs h);
  put_get = λ bs e h.
      ap flip (put-get_le w (flip bs) (length-flip bs ∙ e) (flip-bytes bs h)) ∙ flip-flip bs;
}

abbrev pub order : ByteOrder
order = record {
  put_le16 = put_le 2;
  put_le32 = put_le 4;
  put_le64 = put_le 8;
  put_be16 = put_be 2;
  put_be32 = put_be 4;
  get_le16 = get_le;
  get_le32 = get_le;
  get_le64 = get_le;
  get_be16 = get_be;
  get_be32 = get_be;
}

pub order_laws : ByteOrderLaws order
order_laws = record {
  le16 = le-AreInverse 2;
  le32 = le-AreInverse 4;
  le64 = le-AreInverse 8;
  be16 = be-AreInverse 2;
  be32 = be-AreInverse 4;
}
