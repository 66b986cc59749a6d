-- ===== src/Flash/Log/Recording.antt =====
-- `flash_log_record` while a file is open.
use pcan_alterative.Base.{◌+◌, ◌≤◌, ◌<◌, ◌≡◌, ◌⊎◌, refl, ◌∙◌, ap, true}
use pcan_alterative.Base.{◌++◌, ok, err}
use pcan_alterative.Base.{ltb, arith, Bool-cases, inl, inr}
use pcan_alterative.Base.{take-all, ge→ltb, eq→==, lt→ltb, enospc}
use pcan_alterative.Base.ByteOrder.{ByteOrder, ByteOrderLaws}
use pcan_alterative.Zephyr.RingBuf.{RingBuf, RingBufLaws}
use pcan_alterative.Clp.Parser.{inc32}
use pcan_alterative.Flash.Record.{
  FlashLogFrame, IsFlashLogFrame, record_bytes, record_count, rec_fixed, length-record_bytes,
}
use pcan_alterative.Flash.Log.{FileSystem, State, flash_log_record}

module _ (o : ByteOrder) (rb : RingBuf) (fs : FileSystem) (ol : ByteOrderLaws o)
    (rl : RingBufLaws rb) where
  open rl use {contents, capacity, put_stores, put_count, put_capacity}

  pub record_cases :
      (u : State o rb fs) (f : FlashLogFrame)
      → u.active ≡ true
      → IsFlashLogFrame f
      → let (u', result) = flash_log_record o rb fs u f in
        (rec_fixed + record_count f ≤ rb.space_get u.log_rb
          → (result ≡ ok tt)
            × (contents u'.log_rb ≡ contents u.log_rb ++ record_bytes o f)
            × (u'.log_file ≡ u.log_file)
            × (u'.active ≡ true)
            × (u'.stat_queued ≡ inc32 u.stat_queued)
            × (u'.stat_dropped ≡ u.stat_dropped)
            × (capacity u'.log_rb ≡ capacity u.log_rb))
        × (rb.space_get u.log_rb < rec_fixed + record_count f
            → (result ≡ err enospc) × (u' ≡ record u { stat_dropped = inc32 u.stat_dropped }))
  unfolding flash_log_record
  record_cases u f h v =
      let rec = record_bytes o f in
      let n = length-record_bytes o ol f v in
      (
        λ room.
            let all =
              eq→== (rb.put u.log_rb rec).1 (rec_fixed + record_count f)
                (omega (arith, put_count u.log_rb rec, n)) in
            rw (h, ge→ltb (rb.space_get u.log_rb) (rec_fixed + record_count f) room, all)
              (
                refl,
                put_stores u.log_rb rec
                    ∙ ap (λ t. contents u.log_rb ++ t)
                        (take-all (rb.space_get u.log_rb) rec (omega (arith, n))),
                refl,
                refl,
                refl,
                refl,
                put_capacity u.log_rb rec,
              ),
        λ full.
            rw (h, lt→ltb (rb.space_get u.log_rb) (rec_fixed + record_count f) full) (refl, refl),
      )

  -- While a file is open, a valid frame is accepted exactly if the ring has room for its record:
  -- the record is queued whole, or the ring is as it was and the drop is counted.
  pub flash_log_record_lem :
      (u : State o rb fs) (f : FlashLogFrame)
      → u.active ≡ true
      → IsFlashLogFrame f
      → let need = rec_fixed + record_count f in
        let (u', result) = flash_log_record o rb fs u f in
        ((need ≤ rb.space_get u.log_rb)
          × (result ≡ ok tt)
          × (contents u'.log_rb ≡ contents u.log_rb ++ record_bytes o f)
          × (u'.log_file ≡ u.log_file)
          × (u'.active ≡ true)
          × (u'.stat_queued ≡ inc32 u.stat_queued))
        ⊎ ((rb.space_get u.log_rb < need)
            × (result ≡ err enospc)
            × (u' ≡ record u { stat_dropped = inc32 u.stat_dropped }))
  flash_log_record_lem u f h v =
      let need = rec_fixed + record_count f in
      let (room, full) = record_cases u f h v in
      elim (Bool-cases (ltb (rb.space_get u.log_rb) need)) [
        | inl lt ↦
            let k : rb.space_get u.log_rb < need = ground arith in
            let (a, b) = full k in inr (k, a, b)
        | inr ge ↦
            let k : need ≤ rb.space_get u.log_rb = ground arith in
            let (a, b, c, d, e, dropped, roomy) = room k in inl (k, a, b, c, d, e)
      ]
