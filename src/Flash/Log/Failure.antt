-- ===== src/Flash/Log/Failure.antt =====
-- `drain_to_file` on a file system whose writes can fail or take less than they are given.
use pcan_alterative.Base.{
  ℕ, zero, suc, ◌+◌, ◌%◌, ◌^◌, ◌≤◌, ◌<◌, ◌≡◌, ◌⊎◌, refl, ◌∙◌, ap, ap₂, sym, subst, true, false, inl,
  inr,
}
use pcan_alterative.Base.{
  List, [], ◌++◌, Option, some, ok, err, Errno, length, take, drop, ltb, ◌==◌, arith, append_assoc,
  append-nil, take-all, take-append-drop, length-take, length-drop, nil_of_length, Bool-cases,
  Result-cases,
}
use pcan_alterative.Base.ByteOrder.{ByteOrder}
use pcan_alterative.Zephyr.RingBuf.{RingBuf, RingBufLaws}
use pcan_alterative.Clp.Parser.{inc32}
use pcan_alterative.Flash.Log.{FileSystem, State, write_chunk, written, drain, drain_to_file}

-- A write that fails leaves the file alone, and one that succeeds appends the first bytes.
pub record WritesSome (fs : FileSystem) : Type 0 where
  pub content : fs.File → List ℕ
  pub write_fails :
      (f : fs.File) (xs : List ℕ) (e : Errno)
      → (fs.write f xs).1 ≡ err e
      → content (fs.write f xs).0 ≡ content f
  pub write_count : (f : fs.File) (xs : List ℕ) (n : ℕ) → (fs.write f xs).1 ≡ ok n → n ≤ length xs
  pub write_appends :
      (f : fs.File) (xs : List ℕ) (n : ℕ)
      → (fs.write f xs).1 ≡ ok n
      → content (fs.write f xs).0 ≡ content f ++ take n xs

module _ (o : ByteOrder) (rb : RingBuf) (fs : FileSystem) (rl : RingBufLaws rb)
    (fl : WritesSome fs) where
  open rl use {contents, capacity, bounded, space, size, put_stores, get_takes, get_leaves}
  open rl use {get_capacity}
  open fl use {content}

  abbrev St : Type 0
  St = State o rb fs

  -- How the loop has ended, from a file `file`, `errors` counted and a ring with the bytes `whole`,
  -- `chunk` and `left`, in this order: `whole` has been written.
  pub data Way (file : List ℕ) (errors min_bytes : ℕ) (end : St) (whole chunk left : List ℕ)
      : Type 0 where
    all_written :
        chunk ≡ []
        → content end.log_file ≡ file ++ whole
        → contents end.log_rb ≡ left
        → (length left < min_bytes) ⊎ (left ≡ [])
        → end.stat_werr ≡ errors
        → Way file errors min_bytes end whole chunk left
    lost_chunk :
        0 < length chunk
        → length chunk ≤ write_chunk
        → content end.log_file ≡ file ++ whole
        → contents end.log_rb ≡ left
        → end.stat_werr ≡ inc32 errors
        → Way file errors min_bytes end whole chunk left
    tail_back :
        (n : ℕ)
        → n < length chunk
        → content end.log_file ≡ file ++ (whole ++ take n chunk)
        → contents end.log_rb ≡ left ++ drop n chunk
        → end.stat_werr ≡ errors
        → Way file errors min_bytes end whole chunk left

  pub record Ends (u : St) (min_bytes : ℕ) (result : Option St) : Type 0 where
    pub end : St
    pub ends : result ≡ some end
    pub whole : List ℕ
    pub chunk : List ℕ
    pub left : List ℕ
    pub split : contents u.log_rb ≡ whole ++ (chunk ++ left)
    pub way : Way (content u.log_file) u.stat_werr min_bytes end whole chunk left
    pub uncounted : (end.stat_dropped ≡ u.stat_dropped) × (end.stat_queued ≡ u.stat_queued)

  -- A chunk written before the rest.
  Way-behind :
      {errors min_bytes : ℕ} {end : St} {whole chunk left : List ℕ} (file buf : List ℕ)
      → Way (file ++ buf) errors min_bytes end whole chunk left
      → Way file errors min_bytes end (buf ++ whole) chunk left
  Way-behind {whole = whole} file buf (all_written none_left wrote stays few same) =
      all_written none_left (wrote ∙ append_assoc file buf whole) stays few same
  Way-behind {whole = whole} file buf (lost_chunk some_left short wrote stays counted) =
      lost_chunk some_left short (wrote ∙ append_assoc file buf whole) stays counted
  Way-behind {whole = whole} {chunk = chunk} file buf (tail_back n part wrote stays same) =
      tail_back n part
        (wrote
          ∙ append_assoc file buf (whole ++ take n chunk)
          ∙ ap (λ t. file ++ t) (sym (append_assoc buf whole (take n chunk))))
        stays same

  abbrev buf_of : St → List ℕ
  buf_of u = (rb.get u.log_rb write_chunk).1

  abbrev left_of : St → List ℕ
  left_of u = contents (rb.get u.log_rb write_chunk).0

  halves : (u : St) → contents u.log_rb ≡ buf_of u ++ left_of u
  halves u =
      sym (take-append-drop write_chunk (contents u.log_rb))
      ∙ sym (ap₂ (λ s t. s ++ t) (get_takes u.log_rb write_chunk) (get_leaves u.log_rb write_chunk))

  few_left :
      (fuel : ℕ) (u : St) (min_bytes : ℕ)
      → (ltb (rb.size_get u.log_rb) min_bytes) ≡ true
      → Ends u min_bytes (drain o rb fs (suc fuel) u min_bytes)
  unfolding drain
  few_left fuel u min_bytes few = record {
    end = u;
    ends = rw few refl;
    whole = [];
    chunk = [];
    left = contents u.log_rb;
    split = refl;
    way =
        all_written refl (sym (append-nil (content u.log_file))) refl
          (inl (ground (arith, size u.log_rb))) refl;
    uncounted = (refl, refl);
  }

  got_none : (u : St) → length (buf_of u) ≡ 0 → contents u.log_rb ≡ []
  got_none u h =
      let c = contents u.log_rb in
      nil_of_length c
        (omega (arith, ap length (get_takes u.log_rb write_chunk), length-take write_chunk c))

  nothing_left :
      (fuel : ℕ) (u : St) (min_bytes : ℕ)
      → (ltb (rb.size_get u.log_rb) min_bytes) ≡ false
      → (length (buf_of u) == 0) ≡ true
      → Ends u min_bytes (drain o rb fs (suc fuel) u min_bytes)
  unfolding drain
  nothing_left fuel u min_bytes many none_got =
      let c = contents u.log_rb in
      let nil : c ≡ [] = got_none u (ground arith) in
      let left : left_of u ≡ [] = get_leaves u.log_rb write_chunk ∙ ap (drop write_chunk) nil in
      record {
        end = record u { log_rb = (rb.get u.log_rb write_chunk).0 };
        ends = rw (many, none_got) refl;
        whole = [];
        chunk = [];
        left = [];
        split = nil;
        way = all_written refl (sym (append-nil (content u.log_file))) left (inr refl) refl;
        uncounted = (refl, refl);
      }

  module _ (fuel : ℕ) (u : St) (min_bytes : ℕ)
      (many : (ltb (rb.size_get u.log_rb) min_bytes) ≡ false)
      (bytes : (length (buf_of u) == 0) ≡ false) where
    abbrev after : St
    after = record u {
      log_rb = (rb.get u.log_rb write_chunk).0;
      log_file = (fs.write u.log_file (buf_of u)).0;
    }

    refused :
        (e : Errno)
        → (fs.write u.log_file (buf_of u)).1 ≡ err e
        → Ends u min_bytes (drain o rb fs (suc fuel) u min_bytes)
    unfolding drain written
    refused e failed = record {
      end = record after { stat_werr = inc32 u.stat_werr };
      ends = rw (many, bytes, failed) refl;
      whole = [];
      chunk = buf_of u;
      left = left_of u;
      split = halves u;
      way =
          lost_chunk (ground (arith, bytes))
            (omega (
              arith,
              ap length (get_takes u.log_rb write_chunk),
              length-take write_chunk (contents u.log_rb),
            ))
            (fl.write_fails u.log_file (buf_of u) e failed ∙ sym (append-nil (content u.log_file)))
            refl refl;
      uncounted = (refl, refl);
    }

    fits : (n : ℕ) → length (drop n (buf_of u)) ≤ rb.space_get (rb.get u.log_rb write_chunk).0
    fits n = omega (
      arith,
      length-drop n (buf_of u),
      ap length (get_takes u.log_rb write_chunk),
      length-take write_chunk (contents u.log_rb),
      ap length (get_leaves u.log_rb write_chunk),
      length-drop write_chunk (contents u.log_rb),
      space (rb.get u.log_rb write_chunk).0,
      get_capacity u.log_rb write_chunk,
      bounded u.log_rb,
    )

    part :
        (n : ℕ)
        → (fs.write u.log_file (buf_of u)).1 ≡ ok n
        → ltb n (length (buf_of u)) ≡ true
        → Ends u min_bytes (drain o rb fs (suc fuel) u min_bytes)
    unfolding drain written
    part n wrote less = record {
      end = (written o rb fs after (buf_of u) (ok n)).0;
      ends = rw (many, bytes, wrote, less) refl;
      whole = [];
      chunk = buf_of u;
      left = left_of u;
      split = halves u;
      way = rw less (
          tail_back n (ground (arith, less)) (fl.write_appends u.log_file (buf_of u) n wrote)
            (put_stores (rb.get u.log_rb write_chunk).0 (drop n (buf_of u))
              ∙ ap (λ t. left_of u ++ t) (take-all _ (drop n (buf_of u)) (fits n)))
            refl);
      uncounted = rw less (refl, refl);
    }

    abbrev counted : ℕ → St
    counted n = record after { stat_bytes = (u.stat_bytes + n) % 2 ^ 32 }

    all :
        (n : ℕ)
        → (fs.write u.log_file (buf_of u)).1 ≡ ok n
        → ltb n (length (buf_of u)) ≡ false
        → Ends (counted n) min_bytes (drain o rb fs fuel (counted n) min_bytes)
        → Ends u min_bytes (drain o rb fs (suc fuel) u min_bytes)
    unfolding drain written
    all n wrote enough rest =
        let taken : take n (buf_of u) ≡ buf_of u = take-all n (buf_of u) (ground (arith, enough)) in
        record {
          end = rest.end;
          ends = rw (many, bytes, wrote, enough) rest.ends;
          whole = buf_of u ++ rest.whole;
          chunk = rest.chunk;
          left = rest.left;
          split =
              halves u
              ∙ ap (λ t. buf_of u ++ t) rest.split
              ∙ sym (append_assoc (buf_of u) rest.whole (rest.chunk ++ rest.left));
          way = Way-behind (content u.log_file) (buf_of u) (
              subst (λ c. Way c u.stat_werr min_bytes rest.end rest.whole rest.chunk rest.left)
                (fl.write_appends u.log_file (buf_of u) n wrote
                  ∙ ap (λ t. content u.log_file ++ t) taken)
                rest.way);
          uncounted = rest.uncounted;
        }

    shorter :
        (n : ℕ)
        → ltb n (length (buf_of u)) ≡ false
        → length (contents u.log_rb) < suc fuel
        → length (contents (counted n).log_rb) < fuel
    shorter n enough h =
        (ground (
          arith,
          bytes,
          ap length (get_takes u.log_rb write_chunk),
          length-take write_chunk (contents u.log_rb),
          ap length (get_leaves u.log_rb write_chunk),
          length-drop write_chunk (contents u.log_rb),
        ))

  drain-Ends :
      (fuel : ℕ) (u : St) (min_bytes : ℕ)
      → length (contents u.log_rb) < fuel
      → Ends u min_bytes (drain o rb fs fuel u min_bytes)
  drain-Ends zero u min_bytes h = absurd (omega arith)
  drain-Ends (suc fuel) u min_bytes h = elim (Bool-cases (ltb (rb.size_get u.log_rb) min_bytes)) [
    | inl few ↦ few_left fuel u min_bytes few
    | inr many ↦ elim (Bool-cases (length (buf_of u) == 0)) [
      | inl none_got ↦ nothing_left fuel u min_bytes many none_got
      | inr bytes ↦ elim (Result-cases (fs.write u.log_file (buf_of u)).1) [
        | inr (e, failed) ↦ refused fuel u min_bytes many bytes e failed
        | inl (n, wrote) ↦ elim (Bool-cases (ltb n (length (buf_of u)))) [
          | inl less ↦ part fuel u min_bytes many bytes n wrote less
          | inr enough ↦ all fuel u min_bytes many bytes n wrote enough (
              drain-Ends fuel (counted fuel u min_bytes many bytes n) min_bytes
                (shorter fuel u min_bytes many bytes n enough h))
        ]
      ]
    ]
  ]

  -- `drain_to_file` on any file system in which a write that fails leaves the file alone and one
  -- that succeeds appends as many of the first bytes as it says: the loop comes to an end, and each
  -- byte that was in the ring is accounted for. Some chunks have been written whole, and either that
  -- is all, and less than `min_bytes` are left in the ring, or none; or the write of a chunk has
  -- failed: then this chunk of up to 1024 bytes is neither in the file nor in the ring, and the error
  -- is counted; or a write was short: then the rest of its chunk is in the ring, behind the bytes
  -- that came after it. No record counts as dropped in any of them.
  pub drain_to_file-Ends :
      (u : St) (min_bytes : ℕ) → Ends u min_bytes (drain_to_file o rb fs u min_bytes)
  unfolding drain_to_file
  drain_to_file-Ends u min_bytes =
      drain-Ends (suc (rb.size_get u.log_rb)) u min_bytes (omega (arith, size u.log_rb))
