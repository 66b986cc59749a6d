-- ===== src/Flash/Record.antt =====
-- apps/flash_log/src/flash_log.c, the on-disk format "CLB1": the record of a frame as
-- `flash_log_record` builds it, the file header of `flash_log_start`, and a reader of both after
-- the comment at the top of that file.
use pcan_alterative.Base.{ℕ, zero, suc, ◌+◌, ◌^◌, ◌≤◌, ◌<◌, ◌≡◌, refl, ◌∙◌, ap, List, [], ◌∷◌, ◌++◌}
use pcan_alterative.Base.{
  Option, none, some, map, bit_and, ◌==◌, ltb, if◌then◌else◌, length, take, drop,
}
use pcan_alterative.Base.{slice, byte_at, All, arith, append_assoc, length-append}
use pcan_alterative.Base.{length-take, slice-middle, slice-skip}
use pcan_alterative.Base.{drop-append_length, ne→==}
use pcan_alterative.Base.ByteOrder.{ByteOrder, ByteOrderLaws}

abbrev pub rec_marker : ℕ
rec_marker = 0xC5

abbrev pub rec_fixed : ℕ
rec_fixed = 16

-- `struct flash_log_frame`
pub record FlashLogFrame : Type 0 where
  pub id : ℕ
  pub flags : ℕ
  pub dlc : ℕ
  pub bytes : List ℕ
  pub timestamp : ℕ

pub record IsFlashLogFrame (f : FlashLogFrame) : Type 0 where
  pub id_32 : f.id < 2 ^ 32
  pub timestamp_64 : f.timestamp < 2 ^ 64
  pub bytes_64 : length f.bytes ≡ 64

abbrev pub tbl : List ℕ
tbl = 0 ∷ 1 ∷ 2 ∷ 3 ∷ 4 ∷ 5 ∷ 6 ∷ 7 ∷ 8 ∷ 12 ∷ 16 ∷ 20 ∷ 24 ∷ 32 ∷ 48 ∷ 64 ∷ []

unfoldable pub dlc_to_bytes : ℕ → ℕ
dlc_to_bytes dlc = byte_at tbl (bit_and dlc 0x0f)

-- `n` of `flash_log_record`: no data in a remote frame.
unfoldable pub record_count : FlashLogFrame → ℕ
unfolding dlc_to_bytes
record_count f = if bit_and f.flags 16 == 0 then dlc_to_bytes f.dlc else 0

module _ (o : ByteOrder) where
  -- `rec`, the bytes in use.
  unfoldable pub record_bytes : FlashLogFrame → List ℕ
  record_bytes f =
      rec_marker
      ∷ f.flags
      ∷ f.dlc
      ∷ record_count f
      ∷ (o.put_le32 f.id ++ (o.put_le64 f.timestamp ++ take (record_count f) f.bytes))

  -- `hdr`
  unfoldable pub header_bytes : ℕ → List ℕ
  header_bytes ticks =
      (b'C' ∷ b'L' ∷ b'B' ∷ b'1' ∷ []) ++ (o.put_le16 1 ++ (o.put_le16 16 ++ o.put_le64 ticks))

  -- What a reader of the format has of a frame.
  pub record Entry : Type 0 where
    pub flags : ℕ
    pub dlc : ℕ
    pub id : ℕ
    pub timestamp : ℕ
    pub bytes : List ℕ

  -- One record, and what follows it.
  unfoldable pub read_record : List ℕ → Option (Entry × List ℕ)
  read_record s =
      let n = byte_at s 3 in
      if ltb (length s) rec_fixed
      then none
      else if byte_at s 0 == rec_marker
      then if ltb (length s) (rec_fixed + n)
        then none
        else some (
          record {
            flags = byte_at s 1;
            dlc = byte_at s 2;
            id = o.get_le32 (slice s 4 4);
            timestamp = o.get_le64 (slice s 8 8);
            bytes = slice s 16 n;
          },
          drop (rec_fixed + n) s,
        )
      else none

  -- All records of a stream, on fuel.
  unfoldable pub read_records : ℕ → List ℕ → Option (List Entry)
  unfolding read_record
  read_records zero s = none
  read_records (suc fuel) s =
      let next : Option (List Entry) = elim (read_record s) [
        | none ↦ none
        | some (e, rest) ↦ elim (read_records fuel rest) [ none ↦ none | some es ↦ some (e ∷ es) ]
      ] in
      if length s == 0 then some [] else next

  abbrev pub entry_of : FlashLogFrame → Entry
  entry_of f = record {
    flags = f.flags;
    dlc = f.dlc;
    id = f.id;
    timestamp = f.timestamp;
    bytes = take (record_count f) f.bytes;
  }

  -- The records of some frames, one after the other.
  abbrev pub records : List FlashLogFrame → List ℕ
  records [] = []
  records (f ∷ fs) = record_bytes f ++ records fs

table-le : (t : List ℕ) (i : ℕ) → All (λ n. n ≤ 64) t → byte_at t i ≤ 64
table-le [] i h = omega arith
table-le (n ∷ t) zero h = h.0
table-le (n ∷ t) (suc i) h = table-le t i h.1

-- Whatever its DLC and flags, a record has at most 64 data bytes, so `rec` is not overrun.
pub record_count-le : (f : FlashLogFrame) → record_count f ≤ 64
unfolding record_count dlc_to_bytes
record_count-le f = ground (arith, table-le tbl (bit_and f.dlc 0x0f) (omega arith))

module _ (o : ByteOrder) (laws : ByteOrderLaws o) where
  pub length-record_bytes :
      (f : FlashLogFrame)
      → IsFlashLogFrame f
      → length (record_bytes o f) ≡ rec_fixed + record_count f
  unfolding record_bytes
  length-record_bytes f v =
      let i = o.put_le32 f.id in
      let t = o.put_le64 f.timestamp in
      let d = take (record_count f) f.bytes in
      omega (
        arith,
        length-append i (t ++ d),
        length-append t d,
        laws.le32.length_put f.id,
        laws.le64.length_put f.timestamp,
        length-take (record_count f) f.bytes,
        v.bytes_64,
        record_count-le f,
      )

  -- The reader on a marker, three bytes and fields of the lengths that the format gives.
  read_layout :
      (flags dlc n : ℕ) (i t d rest : List ℕ)
      → length i ≡ 4
      → length t ≡ 8
      → length d ≡ n
      → read_record o (rec_marker ∷ flags ∷ dlc ∷ n ∷ (i ++ (t ++ (d ++ rest))))
        ≡ some (
          record {
            flags = flags;
            dlc = dlc;
            id = o.get_le32 i;
            timestamp = o.get_le64 t;
            bytes = d;
          },
          rest,
        )
  unfolding read_record
  read_layout flags dlc n i t d rest hi ht hd =
      let s = i ++ (t ++ (d ++ rest)) in
      let id_read : slice s 0 4 ≡ i = slice-middle 0 4 [] i (t ++ (d ++ rest)) refl hi in
      let time_read : slice s 4 8 ≡ t = slice-middle 4 8 i t (d ++ rest) hi ht in
      let data_read : slice s 12 n ≡ d =
        slice-skip 4 8 n i (t ++ (d ++ rest)) hi ∙ slice-middle 8 n t d rest ht hd in
      let whole : s ≡ (i ++ (t ++ d)) ++ rest =
        cc (append_assoc i (t ++ d) rest, append_assoc t d rest) in
      let left : drop (12 + n) s ≡ rest =
        ap (drop (12 + n)) whole
        ∙ drop-append_length (12 + n) (i ++ (t ++ d)) rest
            (omega (arith, length-append i (t ++ d), length-append t d)) in
      let size : length s ≡ 12 + n + length rest = omega (
        arith,
        length-append i (t ++ (d ++ rest)),
        length-append t (d ++ rest),
        length-append d rest,
      ) in
      ground (arith, size, id_read, time_read, data_read, left)

  -- The record of a frame within its C types is read back as that frame, its data bytes being those
  -- of its DLC and none in a remote frame, whatever follows it.
  pub read-record_bytes :
      (f : FlashLogFrame) (rest : List ℕ)
      → IsFlashLogFrame f
      → read_record o (record_bytes o f ++ rest) ≡ some (entry_of o f, rest)
  unfolding record_bytes
  read-record_bytes f rest v =
      let i = o.put_le32 f.id in
      let t = o.put_le64 f.timestamp in
      let d = take (record_count f) f.bytes in
      rw (append_assoc i (t ++ d) rest, append_assoc t d rest)
        (rw
          (
            read_layout f.flags f.dlc (record_count f) i t d rest (laws.le32.length_put f.id)
                (laws.le64.length_put f.timestamp)
                (omega
                  (arith, length-take (record_count f) f.bytes, v.bytes_64, record_count-le f)),
            laws.le32.get_put f.id (omega (arith, v.id_32)),
            laws.le64.get_put f.timestamp (omega (arith, v.timestamp_64)),
          )
          refl)

  pub read-records :
      (fs : List FlashLogFrame) (fuel : ℕ)
      → All IsFlashLogFrame fs
      → length fs < fuel
      → read_records o fuel (records o fs) ≡ some (map (entry_of o) fs)
  unfolding read_records
  read-records fs zero vs h = absurd (omega arith)
  read-records [] (suc fuel) vs h = refl
  read-records (f ∷ fs) (suc fuel) (v, vs) h =
      rw
        (
          ne→== (length (record_bytes o f ++ records o fs)) 0 (
              omega
                (arith, length-append (record_bytes o f) (records o fs), length-record_bytes f v)),
          read-record_bytes f (records o fs) v,
          read-records fs fuel vs (omega arith),
        )
        refl
