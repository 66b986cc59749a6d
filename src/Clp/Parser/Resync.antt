-- ===== src/Clp/Parser/Resync.antt =====
-- Recovery: one zero byte brings the parser back to the start of a frame.
use pcan_alterative.Base.{ℕ, ◌≡◌, refl, ap, false, List, [], ◌∷◌, ◌++◌, map, All}
use pcan_alterative.Base.{inl, inr, Bool-cases}
use pcan_alterative.Zephyr.{Wire, WireLaws, CobsResync}
use pcan_alterative.Clp.Parser.{Parser, feed_byte, clp_parser_feed}
use pcan_alterative.Clp.Parser.Accounting.{IsSound, clp_parser_feed-Keeps}
use pcan_alterative.Clp.Parser.Stream.{
  IsIdle, Outgoing, FitsWire, received, wires, feed-wires, clp_parser_feed-append, calls-EndsFrame,
}

module _ (w : Wire) (resync : CobsResync w) where
  zero_byte :
      (p : Parser w.Decoder)
      → let (p', out) = feed_byte w p 0 in
        (p'.dec ≡ w.decoder_init) × (p'.frame ≡ []) × (p'.overflow ≡ false)
  unfolding feed_byte
  zero_byte p = elim (Bool-cases (w.decoder_write p.dec 0).2) [
    | inl refused ↦ rw refused (resync.delimiter_resets p.dec, refl, refl)
    | inr taken ↦ elim (resync.delimiter_ends p.dec) [
      | inl refused ↦ cc
      | inr ends ↦
          let (bytes, over) = calls-EndsFrame w (w.decoder_write p.dec 0).1 p.rx ends in
          rw taken (resync.delimiter_resets p.dec, bytes, over)
    ]
  ]

  -- Whatever the parser has been fed, it is idle after the next zero byte.
  pub feed-IsIdle :
      (garbage : List ℕ) (p : Parser w.Decoder)
      → IsSound p.rx
      → IsIdle w (clp_parser_feed w p (garbage ++ (0 ∷ []))).0
  feed-IsIdle garbage p s =
      let (start, bytes, over) = zero_byte (clp_parser_feed w p garbage).0 in
      record {
        at_start =
            rw (clp_parser_feed-append w garbage (0 ∷ []) p) (unfold clp_parser_feed in start);
        no_bytes =
            rw (clp_parser_feed-append w garbage (0 ∷ []) p) (unfold clp_parser_feed in bytes);
        no_overflow =
            rw (clp_parser_feed-append w garbage (0 ∷ []) p) (unfold clp_parser_feed in over);
        listening = (clp_parser_feed-Keeps w (garbage ++ (0 ∷ [])) p s).listening;
      }

  -- A parser in any sound state, fed any bytes, then one zero byte, then the encodings of any
  -- messages, delivers those messages last and in order, and is idle again.
  pub feed-garbage-wires :
      (laws : WireLaws w) (garbage : List ℕ) (os : List Outgoing) (p : Parser w.Decoder)
      → IsSound p.rx
      → All FitsWire os
      → let (p', out) = clp_parser_feed w p ((garbage ++ (0 ∷ [])) ++ wires w laws os) in
        (out ≡ (clp_parser_feed w p (garbage ++ (0 ∷ []))).1 ++ map received os) × IsIdle w p'
  feed-garbage-wires laws garbage os p s fits =
      let (q, noise) = clp_parser_feed w p (garbage ++ (0 ∷ [])) in
      let (all, idle) = feed-wires w laws os q (feed-IsIdle garbage p s) fits in
      rw (clp_parser_feed-append w (garbage ++ (0 ∷ [])) (wires w laws os) p)
        (ap (λ t. noise ++ t) all, idle)
