-- ===== src/Logger/Wanted.antt =====
-- The frames of apps/can_logger as they are to come out, told without the code's own helpers: what
-- a host is to see of a frame on the bus, and what the driver is to be given for a request.
use pcan_alterative.Base.{
  ℕ, zero, suc, ◌+◌, ◌-◌, ◌*◌, ◌≤◌, ◌≡◌, refl, ◌∙◌, ap, sym, List, [], ◌∷◌, ◌++◌, inl, inr, arith,
  ltb, length, take, replicate, min, Bool-cases, some, ok,
}
use pcan_alterative.Zephyr.Can.{CanApi, has, combine}
use pcan_alterative.Clp.Types.{CanFrame, data_count}
use pcan_alterative.Clp.Decode.RoundTrip.{clip}
use pcan_alterative.Logger.CanIface.{CanlogFrame, DriverFrame, copied, can_max_dlen, can_iface_send}
use pcan_alterative.Logger.Flags.{can_flags_from_clp, clp_flags_from_can-bits, bit}
use pcan_alterative.Logger.App.{rx_message, tx_frame}

-- A list of which the first `n` bytes are kept, and each later one is zeroed.
abbrev pub masked : ℕ → List ℕ → List ℕ
masked n [] = []
masked zero (b ∷ bs) = 0 ∷ masked zero bs
masked (suc n) (b ∷ bs) = b ∷ masked n bs

-- The five flags as the bits 0 to 4: FDF, BRS, ESI, IDE and RTR.
abbrev pub wire_flags : CanApi → ℕ → ℕ
wire_flags api x =
    bit (has x api.can_frame_fdf) * 1
    + bit (has x api.can_frame_brs) * 2
    + bit (has x api.can_frame_esi) * 4
    + bit (has x api.can_frame_ide) * 8
    + bit (has x api.can_frame_rtr) * 16

-- A frame of the bus as the logger is to keep it.
abbrev pub kept_frame : CanApi → DriverFrame → ℕ → CanlogFrame
kept_frame api frame ticks = record {
  id = frame.id;
  dlc = frame.dlc;
  flags = frame.flags;
  bytes = masked (api.can_dlc_to_bytes frame.dlc) frame.bytes;
  timestamp = ticks;
}

-- A kept frame as the link is to send it.
abbrev pub relayed_frame : CanApi → CanlogFrame → CanFrame
relayed_frame api f = record {
  can_id = f.id;
  flags = wire_flags api f.flags;
  dlc = f.dlc;
  tag = 0;
  timestamp = f.timestamp;
  bytes = f.bytes;
}

-- A kept frame as a host is to see it: the bytes that CLP carries for the flags and the DLC.
abbrev pub seen : CanApi → CanlogFrame → CanFrame
seen api f = record (relayed_frame api f) {
  bytes = masked (data_count (wire_flags api f.flags) f.dlc) f.bytes;
}

-- What the driver is to be given for a request.
abbrev pub driver_frame : CanApi → CanFrame → DriverFrame
driver_frame api req = record {
  id = req.can_id;
  dlc = req.dlc;
  flags =
      combine api.can_frame_fdf api.can_frame_brs api.can_frame_esi api.can_frame_ide
        api.can_frame_rtr (has req.flags 1) (has req.flags 2) (has req.flags 4) (has req.flags 8)
        (has req.flags 16);
  bytes = masked (api.can_dlc_to_bytes req.dlc) req.bytes;
}

zeroed : (bs : List ℕ) → replicate (length bs) 0 ≡ masked 0 bs
zeroed [] = refl
zeroed (b ∷ bs) = ap (λ t. 0 ∷ t) (zeroed bs)

padded : (n : ℕ) (bs : List ℕ) → take n bs ++ replicate (length bs - n) 0 ≡ masked n bs
padded zero bs =
    ap (λ k. replicate k 0) (let e : length bs - 0 ≡ length bs = omega arith in e) ∙ zeroed bs
padded (suc n) [] = ap (λ k. replicate k 0) (let e : 0 - suc n ≡ 0 = omega arith in e)
padded (suc n) (b ∷ bs) =
    ap (λ k. b ∷ (take n bs ++ replicate k 0))
      (let e : suc (length bs) - suc n ≡ length bs - n = omega arith in e)
    ∙ ap (λ t. b ∷ t) (padded n bs)

masked-all : (n : ℕ) (bs : List ℕ) → length bs ≤ n → masked n bs ≡ bs
masked-all n [] h = refl
masked-all zero (b ∷ bs) h = absurd (omega arith)
masked-all (suc n) (b ∷ bs) h = ap (λ t. b ∷ t) (masked-all n bs (omega arith))

masked-min : (n k : ℕ) (bs : List ℕ) → length bs ≤ k → masked (min n k) bs ≡ masked n bs
masked-min n k bs h = elim (Bool-cases (ltb n k)) [
  | inl lt ↦ ap (λ i. masked i bs) (ground (arith, lt))
  | inr ge ↦
      masked-all (min n k) bs (ground (arith, ge, h))
      ∙ sym (masked-all n bs (ground (arith, ge, h)))
]

pub masked-masked : (n : ℕ) (bs : List ℕ) → masked n (masked n bs) ≡ masked n bs
masked-masked n [] = refl
masked-masked zero (b ∷ bs) = ap (λ t. 0 ∷ t) (masked-masked zero bs)
masked-masked (suc n) (b ∷ bs) = ap (λ t. b ∷ t) (masked-masked n bs)

pub length-masked : (n : ℕ) (bs : List ℕ) → length (masked n bs) ≡ length bs
length-masked n [] = refl
length-masked zero (b ∷ bs) = ap suc (length-masked zero bs)
length-masked (suc n) (b ∷ bs) = ap suc (length-masked n bs)

pub copied-masked :
    (api : CanApi) (dlc : ℕ) (bytes : List ℕ)
    → length bytes ≡ 64
    → copied api dlc bytes ≡ masked (api.can_dlc_to_bytes dlc) bytes
unfolding copied
copied-masked api dlc bytes h =
    let n = min (api.can_dlc_to_bytes dlc) can_max_dlen in
    ap (λ k. take n bytes ++ replicate (k - n) 0) (sym h)
    ∙ padded n bytes
    ∙ masked-min (api.can_dlc_to_bytes dlc) 64 bytes (omega (arith, h))

-- Copying what has been copied changes nothing.
pub copied-copied :
    (api : CanApi) (dlc : ℕ) (bytes : List ℕ)
    → length bytes ≡ 64
    → copied api dlc (copied api dlc bytes) ≡ masked (api.can_dlc_to_bytes dlc) bytes
copied-copied api dlc bytes h =
    let n = api.can_dlc_to_bytes dlc in
    ap (copied api dlc) (copied-masked api dlc bytes h)
    ∙ copied-masked api dlc (masked n bytes) (length-masked n bytes ∙ h)
    ∙ masked-masked n bytes

pub copied_thrice :
    (api : CanApi) (dlc : ℕ) (bytes : List ℕ)
    → length bytes ≡ 64
    → copied api dlc (copied api dlc (copied api dlc bytes))
      ≡ masked (api.can_dlc_to_bytes dlc) bytes
copied_thrice api dlc bytes h =
    let n = api.can_dlc_to_bytes dlc in
    ap (copied api dlc) (copied-copied api dlc bytes h)
    ∙ copied-masked api dlc (masked n bytes) (length-masked n bytes ∙ h)
    ∙ masked-masked n bytes

pub sent-driver_frame :
    (api : CanApi) (req : CanFrame)
    → length req.bytes ≡ 64
    → can_iface_send api (some (tx_frame api req)) ≡ ok (driver_frame api req)
unfolding can_iface_send tx_frame can_flags_from_clp
sent-driver_frame api req h =
    ap (λ bs. ok (record (driver_frame api req) { bytes = bs }))
      (copied-copied api req.dlc req.bytes h)

pub rx_message-relayed_frame :
    (api : CanApi) (f : CanlogFrame) → rx_message api f ≡ relayed_frame api f
unfolding rx_message
rx_message-relayed_frame api f =
    ap (λ x. record (relayed_frame api f) { flags = x }) (clp_flags_from_can-bits api f.flags)

pub clip-seen :
    (api : CanApi) (f : CanlogFrame) → length f.bytes ≡ 64 → clip (rx_message api f) ≡ seen api f
clip-seen api f h =
    let n = data_count (wire_flags api f.flags) f.dlc in
    ap clip (rx_message-relayed_frame api f)
    ∙ ap (λ bs. record (relayed_frame api f) { bytes = bs })
        (ap (λ k. take n f.bytes ++ replicate (k - n) 0) (sym h) ∙ padded n f.bytes)
