-- ===== src/Examples/Kernel.antt =====
-- Instances of the socket, the message queue and the CAN driver's constants, with their laws.
use pcan_alterative.Base.{
  ℕ, ◌-◌, ◌<◌, ◌≡◌, refl, ap, sym, Bool, true, false, List, [], ◌∷◌, ◌++◌, Result, ok, min, length,
  take, drop, ltb, if◌then◌else◌, arith, take-append-drop, length-take, lt→ltb, Bool-cases, inl,
  inr,
}
use pcan_alterative.Zephyr.Can.{
  CanApi, CanApiLaws, has, combine, MsgQueue, MsgQueueLaws, first, rest,
}
use pcan_alterative.Clp.Types.{clp_dlc_to_bytes}
use pcan_alterative.Logger.CanIface.{CanlogFrame}
use pcan_alterative.Doip.Server.{Sockets}
use pcan_alterative.Doip.Server.Receive.{SocketLaws, Receives, bytes, closes}

-- A socket that gives at most five bytes at a time.
abbrev give : List ℕ → ℕ → List ℕ × Result (List ℕ)
give [] n = ([], ok [])
give (x ∷ xs) n = (drop (min (n - 1) 4) xs, ok (x ∷ take (min (n - 1) 4) xs))

abbrev pub sockets : Sockets
sockets = record { Sock = List ℕ; recv = give }

pub give-Receives : (s : List ℕ) (n : ℕ) → 0 < n → Receives sockets (λ s. s) s n
give-Receives [] n h = closes refl refl
give-Receives (x ∷ xs) n h =
    let k = min (n - 1) 4 in
    bytes x (take k xs) refl (omega (arith, length-take k xs))
      (ap (λ t. x ∷ t) (sym (take-append-drop k xs)))

abbrev pub sockets_laws : SocketLaws sockets
sockets_laws = record { stream = λ s. s; receives = give-Receives }

abbrev put : List CanlogFrame → CanlogFrame → List CanlogFrame × Bool
put q f = if ltb (length q) 64 then (q ++ (f ∷ []), true) else (q, false)

abbrev pub msgq : MsgQueue CanlogFrame
msgq = record { Queue = List CanlogFrame; put = put; get = λ q. (rest q, first q) }

pub put-taken :
    (q : List CanlogFrame) (f : CanlogFrame) → (put q f).1 ≡ true → (put q f).0 ≡ q ++ (f ∷ [])
put-taken q f h = elim (Bool-cases (ltb (length q) 64)) [
  | inl room ↦ rw room refl
  | inr full ↦ absurd (ground (arith, h, full))
]

pub put-refused : (q : List CanlogFrame) (f : CanlogFrame) → (put q f).1 ≡ false → (put q f).0 ≡ q
put-refused q f h = elim (Bool-cases (ltb (length q) 64)) [
  | inl room ↦ absurd (ground (arith, h, room))
  | inr full ↦ rw full refl
]

abbrev pub msgq_laws : MsgQueueLaws msgq
msgq_laws = record {
  queued = λ q. q;
  slots = 64;
  put_taken = put-taken;
  put_refused = put-refused;
  put_free = λ q f h. rw (lt→ltb (length q) 64 h) refl;
  get_first = λ q. refl;
  get_rest = λ q. refl;
}

-- The constants of Zephyr's `drivers/can.h`.
abbrev pub can_api : CanApi
can_api = record {
  can_frame_ide = 1;
  can_frame_rtr = 2;
  can_frame_fdf = 4;
  can_frame_brs = 8;
  can_frame_esi = 16;
  can_dlc_to_bytes = clp_dlc_to_bytes;
}

pub flags_read :
    (a b c d e : Bool)
    → let x = combine 4 8 16 1 2 a b c d e in
      (has x 4 ≡ a) × (has x 8 ≡ b) × (has x 16 ≡ c) × (has x 1 ≡ d) × (has x 2 ≡ e)
flags_read true true true true true = (refl, refl, refl, refl, refl)
flags_read true true true true false = (refl, refl, refl, refl, refl)
flags_read true true true false true = (refl, refl, refl, refl, refl)
flags_read true true true false false = (refl, refl, refl, refl, refl)
flags_read true true false true true = (refl, refl, refl, refl, refl)
flags_read true true false true false = (refl, refl, refl, refl, refl)
flags_read true true false false true = (refl, refl, refl, refl, refl)
flags_read true true false false false = (refl, refl, refl, refl, refl)
flags_read true false true true true = (refl, refl, refl, refl, refl)
flags_read true false true true false = (refl, refl, refl, refl, refl)
flags_read true false true false true = (refl, refl, refl, refl, refl)
flags_read true false true false false = (refl, refl, refl, refl, refl)
flags_read true false false true true = (refl, refl, refl, refl, refl)
flags_read true false false true false = (refl, refl, refl, refl, refl)
flags_read true false false false true = (refl, refl, refl, refl, refl)
flags_read true false false false false = (refl, refl, refl, refl, refl)
flags_read false true true true true = (refl, refl, refl, refl, refl)
flags_read false true true true false = (refl, refl, refl, refl, refl)
flags_read false true true false true = (refl, refl, refl, refl, refl)
flags_read false true true false false = (refl, refl, refl, refl, refl)
flags_read false true false true true = (refl, refl, refl, refl, refl)
flags_read false true false true false = (refl, refl, refl, refl, refl)
flags_read false true false false true = (refl, refl, refl, refl, refl)
flags_read false true false false false = (refl, refl, refl, refl, refl)
flags_read false false true true true = (refl, refl, refl, refl, refl)
flags_read false false true true false = (refl, refl, refl, refl, refl)
flags_read false false true false true = (refl, refl, refl, refl, refl)
flags_read false false true false false = (refl, refl, refl, refl, refl)
flags_read false false false true true = (refl, refl, refl, refl, refl)
flags_read false false false true false = (refl, refl, refl, refl, refl)
flags_read false false false false true = (refl, refl, refl, refl, refl)
flags_read false false false false false = (refl, refl, refl, refl, refl)

abbrev pub can_api_laws : CanApiLaws can_api
can_api_laws = record { flags = record { reads = flags_read } }
