-- ===== src/Doip/Server/Receive.antt =====
-- `recv_full` gives the next bytes of the stream, however the socket cuts it up.
use pcan_alterative.Base.{ℕ, zero, suc, ◌+◌, ◌-◌, ◌≤◌, ◌<◌, ◌≡◌, refl, ◌∙◌, ap, sym}
use pcan_alterative.Base.{List, [], ◌∷◌, ◌++◌, Option, some, Result, ok, err, Errno, length}
use pcan_alterative.Base.{arith, append_assoc, length-append, lt→ltb, ge→ltb}
use native.Mathlib.Decide.{dec_lt}
use pcan_alterative.Doip.Server.{Sockets, recv_loop, recv_full}

-- What a call for at most `n` bytes does: with bytes still to come it gives some of them, from the
-- front; after the last it reports the end, as a close or as an error.
pub data Receives (io : Sockets) (stream : io.Sock → List ℕ) (s : io.Sock) (n : ℕ) : Type 0 where
  bytes :
      (b : ℕ) (bs : List ℕ)
      → (io.recv s n).1 ≡ ok (b ∷ bs)
      → length (b ∷ bs) ≤ n
      → stream s ≡ (b ∷ bs) ++ stream (io.recv s n).0
      → Receives io stream s n
  closes : stream s ≡ [] → (io.recv s n).1 ≡ ok [] → Receives io stream s n
  fails : (e : Errno) → stream s ≡ [] → (io.recv s n).1 ≡ err e → Receives io stream s n

-- The documented behaviour of a stream socket: `stream` is what the peer sends before the end.
pub record SocketLaws (io : Sockets) : Type 0 where
  pub stream : io.Sock → List ℕ
  pub receives : (s : io.Sock) (n : ℕ) → 0 < n → Receives io stream s n

module _ (io : Sockets) (laws : SocketLaws io) where
  open laws use {stream, receives}

  -- With `got` already taken in, the call ends with all that it needs, or at the end of a stream
  -- that has too little.
  pub data Got (s : io.Sock) (need : ℕ) (got : List ℕ) (r : Option (io.Sock × Result (List ℕ)))
      : Type 0 where
    full :
        (s' : io.Sock) (xs : List ℕ)
        → r ≡ some (s', ok xs)
        → length xs ≡ need
        → got ++ stream s ≡ xs ++ stream s'
        → Got s need got r
    cut : (s' : io.Sock) → r ≡ some (s', ok []) → length (got ++ stream s) < need → Got s need got r
    broken :
        (s' : io.Sock) (e : Errno)
        → r ≡ some (s', err e)
        → length (got ++ stream s) < need
        → Got s need got r

  -- One round that gave bytes.
  round-Got :
      (fuel : ℕ) (s : io.Sock) (need : ℕ) (got : List ℕ) (b : ℕ) (bs : List ℕ)
      → length got < need
      → (io.recv s (need - length got)).1 ≡ ok (b ∷ bs)
      → stream s ≡ (b ∷ bs) ++ stream (io.recv s (need - length got)).0
      → Got
          (io.recv s (need - length got)).0
          need
          (got ++ (b ∷ bs))
          (recv_loop io fuel (io.recv s (need - length got)).0 need (got ++ (b ∷ bs)))
      → Got s need got (recv_loop io (suc fuel) s need got)
  unfolding recv_loop
  round-Got fuel s need got b bs h e st rest =
      let s1 = (io.recv s (need - length got)).0 in
      let same : (got ++ (b ∷ bs)) ++ stream s1 ≡ got ++ stream s =
        append_assoc got (b ∷ bs) (stream s1) ∙ ap (λ t. got ++ t) (sym st) in
      rw (lt→ltb (length got) need h, e)
        (elim rest [
          | full s' xs r n t ↦ full s' xs r n (sym same ∙ t)
          | cut s' r n ↦ cut s' r (omega (arith, ap length same))
          | broken s' f r n ↦ broken s' f r (omega (arith, ap length same))
        ])

  loop-Got :
      (fuel : ℕ) (s : io.Sock) (need : ℕ) (got : List ℕ)
      → length got ≤ need
      → need < fuel + length got
      → Got s need got (recv_loop io fuel s need got)
  loop-Got zero s need got h f = absurd (omega arith)
  loop-Got (suc fuel) s need got h f = elim (dec_lt (length got) need) [
    | no all ↦
        full s got (unfold recv_loop in rw (ge→ltb (length got) need (omega arith)) refl)
          (omega arith) refl
    | yes more ↦ elim (receives s (need - length got) (omega arith)) [
      | bytes b bs e n st ↦ round-Got fuel s need got b bs more e st (
          loop-Got fuel (io.recv s (need - length got)).0 need (got ++ (b ∷ bs))
            (omega (arith, length-append got (b ∷ bs))) (omega (arith, length-append got (b ∷ bs))))
      | closes st e ↦
          cut (io.recv s (need - length got)).0
            (unfold recv_loop in rw (lt→ltb (length got) need more, e) refl)
            (omega (arith, length-append got (stream s), ap length st))
      | fails x st e ↦
          broken (io.recv s (need - length got)).0 x
            (unfold recv_loop in rw (lt→ltb (length got) need more, e) refl)
            (omega (arith, length-append got (stream s), ap length st))
    ]
  ]

  -- `recv_full` comes to an end: with the next `need` bytes of the stream, or, if it has fewer, with
  -- no bytes or an error.
  pub recv_full-Got : (s : io.Sock) (need : ℕ) → Got s need [] (recv_full io s need)
  unfolding recv_full
  recv_full-Got s need = loop-Got (suc need) s need [] (omega arith) (omega arith)
