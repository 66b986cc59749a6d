-- ===== src/Doip/Server/Client.antt =====
-- `handle_tcp_client` against the bytes that its peer sends.
use pcan_alterative.Base.{
  ℕ, zero, suc, ◌+◌, ◌-◌, ◌≤◌, ◌<◌, ◌≡◌, ◌≢◌, refl, ◌∙◌, ap, sym, Bool, true, false,
}
use pcan_alterative.Base.{List, [], ◌∷◌, ◌++◌, Option, some, Result, ok, length, take, drop}
use pcan_alterative.Base.{slice, ltb, if◌then◌else◌, arith, length-append}
use pcan_alterative.Base.{
  take-append_length, drop-append_length, slice-append_le, lt→ltb, ge→ltb, append_assoc,
}
use native.Mathlib.Decide.{dec_lt, ℕ_discrete}
use pcan_alterative.Base.{append-nil, ne→==}
use pcan_alterative.Base.ByteOrder.{ByteOrder}
use pcan_alterative.Doip.Types.{doip_header_size, Conn}
use pcan_alterative.Doip.Tcp.{doip_handle_tcp}
use pcan_alterative.Doip.Server.{
  Sockets, msg_buf, resp_buf, sent, recv_full, Round, leaves, answered, with_payload, with_header,
  client_round,
}
use pcan_alterative.Doip.Server.Receive.{SocketLaws, Got, full, cut, broken, recv_full-Got}

module _ (bo : ByteOrder) where
  -- The length of the first message of a stream, by its header.
  abbrev pub stated : List ℕ → ℕ
  stated bytes = bo.get_be32 (slice bytes 4 4)

  -- There is a first message, and it is small enough.
  abbrev pub is_whole : List ℕ → Bool
  is_whole bytes =
      if ltb (length bytes) doip_header_size
      then false
      else if ltb (msg_buf - doip_header_size) (stated bytes)
      then false
      else if ltb (length bytes) (doip_header_size + stated bytes)
      then false
      else true

  -- What a server makes of a whole stream: the messages in it, one after the other, up to one that
  -- is too large or not complete.
  unfoldable pub serve : ℕ → Conn → List ℕ → Conn × List (List ℕ)
  serve zero conn bytes = (conn, [])
  serve (suc fuel) conn bytes =
      let size = doip_header_size + stated bytes in
      let (conn', result) = doip_handle_tcp bo conn (take size bytes) resp_buf in
      let (end, more) = serve fuel conn' (drop size bytes) in
      if is_whole bytes then (end, sent result ++ more) else (conn, [])

module _ (bo : ByteOrder) (io : Sockets) (laws : SocketLaws io) where
  open laws use {stream}

  -- A round, by the bytes that are to come.
  pub data RoundIs (s : io.Sock) (conn : Conn) (r : Option (Round bo io)) : Type 0 where
    stops : r ≡ some leaves → is_whole bo (stream s) ≡ false → RoundIs s conn r
    goes_on :
        (s' : io.Sock)
        → r
          ≡ some
              (answered bo io s' conn (take (doip_header_size + stated bo (stream s)) (stream s)))
        → is_whole bo (stream s) ≡ true
        → stream s' ≡ drop (doip_header_size + stated bo (stream s)) (stream s)
        → RoundIs s conn r

  short-stops :
      (s : io.Sock) → length (stream s) < doip_header_size → is_whole bo (stream s) ≡ false
  short-stops s h = ground arith

  -- The stream is a header, a payload and what follows.
  module _ (s s' : io.Sock) (header payload : List ℕ) where
    stated-header :
        length header ≡ 8
        → stream s ≡ header ++ (payload ++ stream s')
        → stated bo (stream s) ≡ bo.get_be32 (slice header 4 4)
    stated-header n e =
        ap (stated bo) e
        ∙ ap bo.get_be32 (slice-append_le 4 4 header (payload ++ stream s') (omega arith))

    whole-message :
        length header ≡ 8
        → stream s ≡ header ++ (payload ++ stream s')
        → bo.get_be32 (slice header 4 4) ≡ length payload
        → length payload ≤ 592
        → (is_whole bo (stream s) ≡ true)
          × (take (doip_header_size + stated bo (stream s)) (stream s) ≡ header ++ payload)
          × (drop (doip_header_size + stated bo (stream s)) (stream s) ≡ stream s')
    whole-message n e l small =
        let st = stated-header n e ∙ l in
        let both : stream s ≡ (header ++ payload) ++ stream s' =
          e ∙ sym (append_assoc header payload (stream s')) in
        let size : length (header ++ payload) ≡ 8 + stated bo (stream s) =
          omega (arith, length-append header payload) in
        (
          ground (arith, ap length both, length-append (header ++ payload) (stream s'), size),
          ap (take (8 + stated bo (stream s))) both
              ∙ take-append_length (8 + stated bo (stream s)) (header ++ payload) (stream s') size,
          ap (drop (8 + stated bo (stream s))) both
              ∙ drop-append_length (8 + stated bo (stream s)) (header ++ payload) (stream s') size,
        )

  module _ (s s1 : io.Sock) (conn : Conn) (b : ℕ) (bs : List ℕ) where
    module _ (n : length (b ∷ bs) ≡ 8) (e : stream s ≡ (b ∷ bs) ++ stream s1) where
      abbrev plen : ℕ
      plen = bo.get_be32 (slice (b ∷ bs) 4 4)

      stated-plen : stated bo (stream s) ≡ plen
      stated-plen = stated-header s s1 (b ∷ bs) [] n e

      too_large : 592 < plen → RoundIs s conn (with_header bo io conn (some (s1, ok (b ∷ bs))))
      unfolding with_header
      too_large large = stops (rw (lt→ltb 592 plen large) refl) (ground (arith, stated-plen))

      no_payload : plen ≡ 0 → RoundIs s conn (with_header bo io conn (some (s1, ok (b ∷ bs))))
      unfolding with_header
      no_payload z =
          let (whole, first, rest) = whole-message s s1 (b ∷ bs) [] n e z (omega arith) in
          goes_on s1
            (rw z (ap (λ m. some (answered bo io s1 conn m)) (sym (first ∙ append-nil (b ∷ bs)))))
            whole (sym rest)

      behind_header :
          plen ≤ 592
          → plen ≢ 0
          → with_header bo io conn (some (s1, ok (b ∷ bs)))
            ≡ with_payload bo io conn (b ∷ bs) (recv_full io s1 plen)
      unfolding with_header
      behind_header small some_bytes = rw (ge→ltb 592 plen small, ne→== plen 0 some_bytes) refl

      cut_short : length (stream s1) < plen → is_whole bo (stream s) ≡ false
      cut_short h = ground (arith, stated-plen, ap length e, length-append (b ∷ bs) (stream s1))

      with_bytes :
          (s2 : io.Sock) (xs : List ℕ)
          → plen ≤ 592
          → plen ≢ 0
          → length xs ≡ plen
          → stream s1 ≡ xs ++ stream s2
          → RoundIs s conn (with_payload bo io conn (b ∷ bs) (some (s2, ok xs)))
      unfolding with_payload
      with_bytes s2 [] small nz l t = absurd (nz (sym l))
      with_bytes s2 (x ∷ xs) small nz l t =
          let (whole, first, rest) =
            whole-message s s2 (b ∷ bs) (x ∷ xs) n (e ∙ ap (λ u. (b ∷ bs) ++ u) t) (sym l)
              (omega arith) in
          goes_on s2 (ap (λ m. some (answered bo io s2 conn m)) (sym first)) whole (sym rest)

      payload_received :
          plen ≤ 592
          → plen ≢ 0
          → (r : Option (io.Sock × Result (List ℕ))) → Got io laws s1 plen [] r
          → RoundIs s conn (with_payload bo io conn (b ∷ bs) r)
      unfolding with_payload
      payload_received small nz r (full s2 xs q l t) = rw q (with_bytes s2 xs small nz l t)
      payload_received small nz r (cut s2 q l) = stops (rw q refl) (cut_short l)
      payload_received small nz r (broken s2 f q l) = stops (rw q refl) (cut_short l)

      header_received : RoundIs s conn (with_header bo io conn (some (s1, ok (b ∷ bs))))
      header_received = elim (dec_lt 592 plen) [
        | yes large ↦ too_large large
        | no small ↦ elim (ℕ_discrete plen 0) [
          | yes z ↦ no_payload z
          | no nz ↦ rw (behind_header (omega arith) nz) (
              payload_received (omega arith) nz (recv_full io s1 plen)
                (recv_full-Got io laws s1 plen))
        ]
      ]

  header-RoundIs :
      (s : io.Sock) (conn : Conn) (r : Option (io.Sock × Result (List ℕ)))
      → Got io laws s 8 [] r
      → RoundIs s conn (with_header bo io conn r)
  unfolding with_header
  header-RoundIs s conn r (full s1 [] q l t) = absurd (omega arith)
  header-RoundIs s conn r (full s1 (b ∷ bs) q l t) = rw q (header_received s s1 conn b bs l t)
  header-RoundIs s conn r (cut s1 q l) = stops (rw q refl) (short-stops s l)
  header-RoundIs s conn r (broken s1 f q l) = stops (rw q refl) (short-stops s l)

  pub round-RoundIs : (s : io.Sock) (conn : Conn) → RoundIs s conn (client_round bo io s conn)
  unfolding client_round
  round-RoundIs s conn = header-RoundIs s conn (recv_full io s 8) (recv_full-Got io laws s 8)
