-- ===== src/Link/Usb/Device.antt =====
-- apps/usb_cdc/src/usbd_ctx.c: how the USB device is put together. The calls of the USB stack are
-- reported as values in their order, and what the stack returns is an argument.
use pcan_alterative.Base.{
  ◌≡◌, refl, ◌∙◌, ap, ap₂, sym, Bool, true, false, ◌&&◌, List, [], ◌∷◌, ◌++◌,
}
use pcan_alterative.Base.{Result, ok, err, if◌then◌else◌}
use pcan_alterative.Zephyr.Calls.{after, attempt, after_one}

pub data Speed : Type 0 where
  full high : Speed

pub data Descriptor : Type 0 where
  lang mfr prod sn : Descriptor

-- The calls of the stack in this file.
pub data UsbdCall : Type 0 where
  usbd_add_descriptor : Descriptor → UsbdCall
  usbd_add_configuration usbd_register_all_classes usbd_device_set_code_triple : Speed → UsbdCall
  usbd_self_powered usbd_msg_register_cb usbd_init : UsbdCall

-- What the stack returns, and how it and the program are configured.
pub record UsbStack : Type 0 where
  pub answer : UsbdCall → Result (Unit {0})
  pub has_hwinfo : Bool
  pub supports_high_speed : Bool
  pub caps_high_speed : Bool

-- The calls that a function has made, and its result.
abbrev pub Calls : Type 0
Calls = List UsbdCall × Result (Unit {0})

-- A call, and what follows it if it returned 0.
infixl 6 ◌then_on◌
abbrev pub ◌then_on◌ : Calls → Calls → Calls
(xs, ok done) then_on (ys, r) = (xs ++ ys, r)
(xs, err e) then_on next = (xs, err e)

abbrev pub calling : UsbStack → UsbdCall → Calls
calling s c = (c ∷ [], s.answer c)

-- A call whose result is not looked at.
abbrev pub done_by : UsbdCall → Calls
done_by c = (c ∷ [], ok tt)

abbrev pub skip : Calls
skip = ([], ok tt)

unfoldable pub usb_cdc_add_descriptors : UsbStack → Calls
usb_cdc_add_descriptors s =
    calling s (usbd_add_descriptor lang)
    then_on calling s (usbd_add_descriptor mfr)
    then_on calling s (usbd_add_descriptor prod)
    then_on (if s.has_hwinfo then calling s (usbd_add_descriptor sn) else skip)

unfoldable pub usb_cdc_add_speed_config : UsbStack → Speed → Calls
usb_cdc_add_speed_config s speed =
    calling s (usbd_add_configuration speed)
    then_on calling s (usbd_register_all_classes speed)
    then_on done_by (usbd_device_set_code_triple speed)

-- `has_cb` is whether `msg_cb` is not NULL. An error stands for the result NULL.
unfoldable pub usb_cdc_init_usbd : UsbStack → Bool → Calls
unfolding usb_cdc_add_descriptors usb_cdc_add_speed_config
usb_cdc_init_usbd s has_cb =
    usb_cdc_add_descriptors s
    then_on (if s.supports_high_speed && s.caps_high_speed
        then usb_cdc_add_speed_config s high
        else skip)
    then_on usb_cdc_add_speed_config s full
    then_on done_by usbd_self_powered
    then_on (if has_cb then calling s usbd_msg_register_cb else skip)
    then_on calling s usbd_init

-- The calls of a whole set-up in their order: with a serial number or not, with high speed or not,
-- with a callback or not.
abbrev if_set : Bool → List UsbdCall → List UsbdCall
if_set b cs = if b then cs else []

abbrev descriptor_calls : Bool → List UsbdCall
descriptor_calls hwinfo =
    (usbd_add_descriptor lang ∷ usbd_add_descriptor mfr ∷ usbd_add_descriptor prod ∷ [])
    ++ if_set hwinfo (usbd_add_descriptor sn ∷ [])

abbrev speed_calls : Speed → List UsbdCall
speed_calls speed =
    usbd_add_configuration speed
    ∷ usbd_register_all_classes speed
    ∷ usbd_device_set_code_triple speed
    ∷ []

abbrev setup_calls : Bool → Bool → Bool → List UsbdCall
setup_calls hwinfo high_speed cb =
    usbd_add_descriptor lang
    ∷ usbd_add_descriptor mfr
    ∷ usbd_add_descriptor prod
    ∷ (if_set hwinfo (usbd_add_descriptor sn ∷ [])
        ++ (if_set high_speed (speed_calls high)
            ++ (speed_calls full
                ++ (usbd_self_powered
                    ∷ (if_set cb (usbd_msg_register_cb ∷ []) ++ (usbd_init ∷ []))))))

abbrev pub whole_setup : UsbStack → Bool → List UsbdCall
whole_setup s has_cb = setup_calls s.has_hwinfo (s.supports_high_speed && s.caps_high_speed) has_cb

-- What a call gives to go by: the device's code triple and its power are set unconditionally.
abbrev pub reply : UsbStack → UsbdCall → Result (Unit {0})
reply s (usbd_add_descriptor d) = s.answer (usbd_add_descriptor d)
reply s (usbd_add_configuration speed) = s.answer (usbd_add_configuration speed)
reply s (usbd_register_all_classes speed) = s.answer (usbd_register_all_classes speed)
reply s (usbd_device_set_code_triple speed) = ok tt
reply s usbd_self_powered = ok tt
reply s usbd_msg_register_cb = s.answer usbd_msg_register_cb
reply s usbd_init = s.answer usbd_init

grouped :
    (hwinfo high_speed cb : Bool)
    → ((((descriptor_calls hwinfo ++ if_set high_speed (speed_calls high)) ++ speed_calls full)
            ++ (usbd_self_powered ∷ []))
          ++ if_set cb (usbd_msg_register_cb ∷ []))
        ++ (usbd_init ∷ [])
      ≡ setup_calls hwinfo high_speed cb
grouped false false false = refl
grouped false false true = refl
grouped false true false = refl
grouped false true true = refl
grouped true false false = refl
grouped true false true = refl
grouped true true false = refl
grouped true true true = refl

after-then_on :
    (c : UsbdCall) (ret : Result (Unit {0})) (xs ys : Calls)
    → after c ret xs then_on ys ≡ after c ret (xs then_on ys)
after-then_on c (ok done) (xs, ok done') ys = refl
after-then_on c (ok done) (xs, err e) ys = refl
after-then_on c (err e) xs ys = refl

module _ (s : UsbStack) where
  abbrev tried : List UsbdCall → Calls
  tried cs = attempt (reply s) cs

  tried-append : (xs ys : List UsbdCall) → tried xs then_on tried ys ≡ tried (xs ++ ys)
  tried-append [] ys = refl
  tried-append (x ∷ xs) ys =
      after-then_on x (reply s x) (tried xs) (tried ys)
      ∙ ap (after x (reply s x)) (tried-append xs ys)

  -- Two parts of a set-up, one behind the other.
  both :
      (r q : Calls) (xs ys : List UsbdCall)
      → r ≡ tried xs
      → q ≡ tried ys
      → r then_on q ≡ tried (xs ++ ys)
  both r q xs ys h h' = ap₂ (λ a b. a then_on b) h h' ∙ tried-append xs ys

  one : (c : UsbdCall) → (c ∷ [], reply s c) ≡ tried (c ∷ [])
  one c = sym (after_one c (reply s c))

  maybe :
      (b : Bool) (r : Calls) (cs : List UsbdCall)
      → r ≡ tried cs
      → (if b then r else skip) ≡ tried (if_set b cs)
  maybe true r cs h = h
  maybe false r cs h = refl

  descriptors_tried : usb_cdc_add_descriptors s ≡ tried (descriptor_calls s.has_hwinfo)
  unfolding usb_cdc_add_descriptors
  descriptors_tried =
      let l = usbd_add_descriptor lang in
      let m = usbd_add_descriptor mfr in
      both _ _ (l ∷ m ∷ usbd_add_descriptor prod ∷ [])
        (if_set s.has_hwinfo (usbd_add_descriptor sn ∷ []))
        (both _ _ (l ∷ m ∷ []) (usbd_add_descriptor prod ∷ [])
          (both _ _ (l ∷ []) (m ∷ []) (one l) (one m)) (one (usbd_add_descriptor prod)))
        (maybe s.has_hwinfo _ (usbd_add_descriptor sn ∷ []) (one (usbd_add_descriptor sn)))

  speed_tried : (speed : Speed) → usb_cdc_add_speed_config s speed ≡ tried (speed_calls speed)
  unfolding usb_cdc_add_speed_config
  speed_tried speed =
      let c = usbd_add_configuration speed in
      let r = usbd_register_all_classes speed in
      let t = usbd_device_set_code_triple speed in
      both _ _ (c ∷ r ∷ []) (t ∷ []) (both _ _ (c ∷ []) (r ∷ []) (one c) (one r)) (one t)

  -- `usb_cdc_init_usbd` makes the calls of the USB stack in one fixed order, each only if those
  -- before it whose result counts have succeeded, and returns what the last of them did: descriptors
  -- first and `usbd_init` last, the serial number exactly if there is hardware information, high
  -- speed exactly if the stack and the controller have it, and the registration of the callback
  -- exactly if there is one.
  pub usb_cdc_init_usbd-attempt :
      (has_cb : Bool) → usb_cdc_init_usbd s has_cb ≡ attempt (reply s) (whole_setup s has_cb)
  unfolding usb_cdc_init_usbd
  usb_cdc_init_usbd-attempt has_cb =
      let high_speed = s.supports_high_speed && s.caps_high_speed in
      let d = descriptor_calls s.has_hwinfo in
      let h = if_set high_speed (speed_calls high) in
      let f = speed_calls full in
      let p = usbd_self_powered ∷ [] in
      let m = if_set has_cb (usbd_msg_register_cb ∷ []) in
      let i = usbd_init ∷ [] in
      let with_high = both _ _ d h descriptors_tried (maybe high_speed _ _ (speed_tried high)) in
      let speeds = both _ _ (d ++ h) f with_high (speed_tried full) in
      let powered = both _ _ ((d ++ h) ++ f) p speeds (one usbd_self_powered) in
      let registered =
        both _ _ (((d ++ h) ++ f) ++ p) m powered
          (maybe has_cb _ (usbd_msg_register_cb ∷ []) (one usbd_msg_register_cb)) in
      both _ _ ((((d ++ h) ++ f) ++ p) ++ m) i registered (one usbd_init)
      ∙ ap tried (grouped s.has_hwinfo high_speed has_cb)
