-- ===== src/Flash/Log/Drain.antt =====
-- `drain_to_file`: it ends, keeps every byte in order, and leaves less than it was to leave.
use pcan_alterative.Base.{
  ℕ, zero, suc, ◌+◌, ◌%◌, ◌^◌, ◌<◌, ◌≡◌, ◌⊎◌, refl, ◌∙◌, ap, sym, true, false,
}
use pcan_alterative.Base.{List, [], ◌++◌, Option, some, ok, length, drop}
use pcan_alterative.Base.{ltb, ◌==◌, arith, Bool-cases, inl, inr, append_assoc, length-take}
use pcan_alterative.Base.{length-drop, take-append-drop, nil_of_length, ge→ltb, ap₂}
use pcan_alterative.Base.ByteOrder.{ByteOrder}
use pcan_alterative.Zephyr.RingBuf.{RingBuf, RingBufLaws}
use pcan_alterative.Flash.Log.{FileSystem, State, write_chunk, written, drain, drain_to_file}

-- A file system that takes every write whole, as littlefs does while there is space.
pub record TakesAll (fs : FileSystem) : Type 0 where
  pub content : fs.File → List ℕ
  pub open_ok : (f : fs.File) (ticks : ℕ) → (fs.open_named f ticks).1 ≡ ok tt
  pub open_empty : (f : fs.File) (ticks : ℕ) → content (fs.open_named f ticks).0 ≡ []
  pub write_count : (f : fs.File) (xs : List ℕ) → (fs.write f xs).1 ≡ ok (length xs)
  pub write_appends : (f : fs.File) (xs : List ℕ) → content (fs.write f xs).0 ≡ content f ++ xs
  pub sync_keeps : (f : fs.File) → content (fs.sync f).0 ≡ content f
  pub close_keeps : (f : fs.File) → content (fs.close f).0 ≡ content f

module _ (o : ByteOrder) (rb : RingBuf) (fs : FileSystem) (rl : RingBufLaws rb)
    (fl : TakesAll fs) where
  open rl use {contents, capacity, size, get_takes, get_leaves, get_capacity}
  open fl use {content, write_count, write_appends}

  -- From `u` the loop comes to an end; no byte is lost or moved, what is left in the ring is less
  -- than `min_bytes` (or nothing), and the rest of the state is as it was but for the byte count.
  pub record Drains (u : State o rb fs) (min_bytes : ℕ) (result : Option (State o rb fs))
      : Type 0 where
    pub end : State o rb fs
    pub ends : result ≡ some end
    pub kept : content end.log_file ++ contents end.log_rb ≡ content u.log_file ++ contents u.log_rb
    pub roomy : capacity end.log_rb ≡ capacity u.log_rb
    pub less : (length (contents end.log_rb) < min_bytes) ⊎ (contents end.log_rb ≡ [])
    pub same :
        end ≡ record u { log_rb = end.log_rb; log_file = end.log_file; stat_bytes = end.stat_bytes }

  after_round : State o rb fs → State o rb fs
  after_round u =
      let (r, buf) = rb.get u.log_rb write_chunk in
      record u {
        log_rb = r;
        log_file = (fs.write u.log_file buf).0;
        stat_bytes = (u.stat_bytes + length buf) % 2 ^ 32;
      }

  round_kept :
      (u : State o rb fs)
      → content (after_round u).log_file ++ contents (after_round u).log_rb
        ≡ content u.log_file ++ contents u.log_rb
  unfolding after_round
  round_kept u =
      let (r, buf) = rb.get u.log_rb write_chunk in
      let c = contents u.log_rb in
      ap₂ (λ s t. s ++ t) (write_appends u.log_file buf) (get_leaves u.log_rb write_chunk)
      ∙ append_assoc (content u.log_file) buf (drop write_chunk c)
      ∙ ap (λ t. content u.log_file ++ (t ++ drop write_chunk c)) (get_takes u.log_rb write_chunk)
      ∙ ap (λ t. content u.log_file ++ t) (take-append-drop write_chunk c)

  enough :
      (fuel : ℕ) (u : State o rb fs) (min_bytes : ℕ)
      → (ltb (rb.size_get u.log_rb) min_bytes) ≡ true
      → Drains u min_bytes (drain o rb fs (suc fuel) u min_bytes)
  unfolding drain
  enough fuel u min_bytes few = record {
    end = u;
    ends = rw few refl;
    kept = refl;
    roomy = refl;
    less = inl (ground (arith, size u.log_rb));
    same = refl;
  }

  nothing_left : (r : rb.Ring) → length (rb.get r write_chunk).1 ≡ 0 → contents r ≡ []
  nothing_left r h =
      nil_of_length (contents r)
        (omega (arith, ap length (get_takes r write_chunk), length-take write_chunk (contents r)))

  nothing :
      (fuel : ℕ) (u : State o rb fs) (min_bytes : ℕ)
      → (ltb (rb.size_get u.log_rb) min_bytes) ≡ false
      → (length (rb.get u.log_rb write_chunk).1 == 0) ≡ true
      → Drains u min_bytes (drain o rb fs (suc fuel) u min_bytes)
  unfolding drain
  nothing fuel u min_bytes many none_left =
      let c = contents u.log_rb in
      let nil = nothing_left u.log_rb (ground arith) in
      let left : contents (rb.get u.log_rb write_chunk).0 ≡ [] =
        get_leaves u.log_rb write_chunk ∙ ap (drop write_chunk) nil in
      record {
        end = record u { log_rb = (rb.get u.log_rb write_chunk).0 };
        ends = rw (many, none_left) refl;
        kept = ap (λ t. content u.log_file ++ t) (left ∙ sym nil);
        roomy = get_capacity u.log_rb write_chunk;
        less = inr left;
        same = refl;
      }

  one_round :
      (fuel : ℕ) (u : State o rb fs) (min_bytes : ℕ)
      → (ltb (rb.size_get u.log_rb) min_bytes) ≡ false
      → (length (rb.get u.log_rb write_chunk).1 == 0) ≡ false
      → Drains (after_round u) min_bytes (drain o rb fs fuel (after_round u) min_bytes)
      → Drains u min_bytes (drain o rb fs (suc fuel) u min_bytes)
  unfolding drain written after_round
  one_round fuel u min_bytes many bytes rest =
      let (r, buf) = rb.get u.log_rb write_chunk in
      record {
        end = rest.end;
        ends =
            rw
              (
                many,
                bytes,
                write_count u.log_file buf,
                ge→ltb (length buf) (length buf) (omega arith),
              )
              rest.ends;
        kept = rest.kept ∙ round_kept u;
        roomy = rest.roomy ∙ get_capacity u.log_rb write_chunk;
        less = rest.less;
        same = rest.same;
      }

  pub drain-Drains :
      (fuel : ℕ) (u : State o rb fs) (min_bytes : ℕ)
      → length (contents u.log_rb) < fuel
      → Drains u min_bytes (drain o rb fs fuel u min_bytes)
  drain-Drains zero u min_bytes h = absurd (omega arith)
  drain-Drains (suc fuel) u min_bytes h =
      let c = contents u.log_rb in
      let buf = (rb.get u.log_rb write_chunk).1 in
      elim (Bool-cases (ltb (rb.size_get u.log_rb) min_bytes)) [
        | inl few ↦ enough fuel u min_bytes few
        | inr many ↦ elim (Bool-cases (length buf == 0)) [
          | inl none_left ↦ nothing fuel u min_bytes many none_left
          | inr bytes ↦ one_round fuel u min_bytes many bytes (
              drain-Drains fuel (after_round u) min_bytes (
                unfold after_round in
                ground (
                  arith,
                  ap length (get_takes u.log_rb write_chunk),
                  length-take write_chunk c,
                  ap length (get_leaves u.log_rb write_chunk),
                  length-drop write_chunk c,
                )))
        ]
      ]

  -- On a file system that takes every write whole, `drain_to_file` comes to an end; the file's
  -- bytes followed by the ring's are what they were, and less than `min_bytes` are left in the
  -- ring, or none.
  pub drain_to_file-Drains :
      (u : State o rb fs) (min_bytes : ℕ) → Drains u min_bytes (drain_to_file o rb fs u min_bytes)
  unfolding drain_to_file
  drain_to_file-Drains u min_bytes =
      drain-Drains (suc (rb.size_get u.log_rb)) u min_bytes (omega (arith, size u.log_rb))
