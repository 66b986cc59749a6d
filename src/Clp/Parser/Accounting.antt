-- ===== src/Clp/Parser/Accounting.antt =====
-- What the parser keeps over any input at all: the bound of its buffer, and its count of frames.
use pcan_alterative.Base.{ℕ, ◌+◌, ◌%◌, ◌^◌, ◌≤◌, ◌<◌, ◌≡◌, ◌≢◌, true}
use pcan_alterative.Base.{
  List, [], ◌∷◌, ◌++◌, Option, none, some, length, length-append, arith, All,
}
use pcan_alterative.Base.{All-append, drop, slice, length-take, length-drop}
use pcan_alterative.Zephyr.{Wire}
use pcan_alterative.Clp.Types.{clp_max_payload, clp_max_frame}
use pcan_alterative.Clp.Parser.{
  Message, Receiver, Parser, check_crc, clp_parser_dispatch, clp_cobs_cb, cobs_calls, feed_byte,
  clp_parser_feed,
}

-- The buffer is not overrun, the counter is a `uint32_t`, and a callback is registered.
pub record IsSound (c : Receiver) : Type 0 where
  pub room : length c.frame ≤ clp_max_frame
  pub ok_u32 : c.frames_ok < 2 ^ 32
  pub listening : c.has_cb ≡ true

abbrev pub FitsPayload : Message → Type 0
FitsPayload m = length m.payload ≤ clp_max_payload

-- From `c` a run of callback calls has come to the state `c'` and delivered `out`.
pub record Keeps (c c' : Receiver) (out : List Message) : Type 0 where
  pub room : length c'.frame ≤ clp_max_frame
  pub ok_u32 : c'.frames_ok < 2 ^ 32
  pub listening : c'.has_cb ≡ true
  pub counted : c'.frames_ok ≡ (c.frames_ok + length out) % 2 ^ 32
  pub sizes : All FitsPayload out

Keeps-start : (c : Receiver) → IsSound c → Keeps c c []
Keeps-start c s = record {
  room = s.room;
  ok_u32 = s.ok_u32;
  listening = s.listening;
  counted = omega (arith, s.ok_u32);
  sizes = tt;
}

Keeps-append :
    (a b c : Receiver) (xs ys : List Message) → Keeps a b xs → Keeps b c ys → Keeps a c (xs ++ ys)
Keeps-append a b c xs ys k l = record {
  room = l.room;
  ok_u32 = l.ok_u32;
  listening = l.listening;
  counted = omega (arith, k.counted, l.counted, length-append xs ys);
  sizes = All-append FitsPayload xs ys k.sizes l.sizes;
}

IsSound-after : {a b : Receiver} {out : List Message} → Keeps a b out → IsSound b
IsSound-after k = record { room = k.room; ok_u32 = k.ok_u32; listening = k.listening }

module _ (w : Wire) where
  dispatch-Keeps :
      (c : Receiver) → IsSound c → Keeps c (clp_parser_dispatch w c).0 (clp_parser_dispatch w c).1
  unfolding clp_parser_dispatch check_crc
  dispatch-Keeps c s =
      let plen = w.get_le16 (slice c.frame 3 2) in
      ground (arith, length-take plen (drop 5 c.frame), length-drop 5 c.frame)

  cb-Keeps :
      (c : Receiver) (e : Option (List ℕ))
      → IsSound c
      → Keeps c (clp_cobs_cb w c e).0 (clp_cobs_cb w c e).1
  unfolding clp_cobs_cb
  cb-Keeps c none s = ground (arith, dispatch-Keeps c s)
  cb-Keeps c (some buf) s = ground (arith, length-append c.frame buf)

  calls-Keeps :
      (evs : List (Option (List ℕ))) (c : Receiver)
      → IsSound c
      → Keeps c (cobs_calls w c evs).0 (cobs_calls w c evs).1
  unfolding cobs_calls
  calls-Keeps [] c s = Keeps-start c s
  calls-Keeps (e ∷ evs) c s =
      let (c', out) = clp_cobs_cb w c e in
      let k = cb-Keeps c e s in
      Keeps-append c c' (cobs_calls w c' evs).0 out (cobs_calls w c' evs).1 k
        (calls-Keeps evs c' (IsSound-after k))

  feed_byte-Keeps :
      (p : Parser w.Decoder) (b : ℕ)
      → IsSound p.rx
      → Keeps p.rx (feed_byte w p b).0.rx (feed_byte w p b).1
  unfolding feed_byte
  feed_byte-Keeps p b s = ground (arith, calls-Keeps (w.decoder_write p.dec b).1 p.rx s)

  -- Over any bytes, well formed or not, with a registered callback: the frame buffer is not
  -- overrun, the callback stays registered, `frames_ok` counts exactly the delivered messages, and
  -- no delivered payload is longer than `CLP_MAX_PAYLOAD`.
  pub clp_parser_feed-Keeps :
      (bs : List ℕ) (p : Parser w.Decoder)
      → IsSound p.rx
      → Keeps p.rx (clp_parser_feed w p bs).0.rx (clp_parser_feed w p bs).1
  unfolding clp_parser_feed
  clp_parser_feed-Keeps [] p s = Keeps-start p.rx s
  clp_parser_feed-Keeps (b ∷ bs) p s =
      let (p', out) = feed_byte w p b in
      let k = feed_byte-Keeps p b s in
      Keeps-append p.rx p'.rx (clp_parser_feed w p' bs).0.rx out (clp_parser_feed w p' bs).1 k
        (clp_parser_feed-Keeps bs p' (IsSound-after k))

  -- A callback call on the end of a frame that is not empty adds one to exactly one of the three
  -- counters, and delivers a message exactly if that is `frames_ok`, when a callback is registered
  -- and no counter is at its end.
  pub clp_cobs_cb_counts :
      (c : Receiver)
      → c.has_cb ≡ true
      → c.frame ≢ []
      → c.frames_ok + 1 < 2 ^ 32
      → c.crc_errors + 1 < 2 ^ 32
      → c.framing_errors + 1 < 2 ^ 32
      → let (c', out) = clp_cobs_cb w c none in
        (c'.frames_ok + c'.crc_errors + c'.framing_errors
          ≡ c.frames_ok + c.crc_errors + c.framing_errors + 1)
        × (c'.frames_ok ≡ c.frames_ok + length out)
  unfolding clp_cobs_cb clp_parser_dispatch check_crc
  clp_cobs_cb_counts c hc hf h1 h2 h3 = ground arith
