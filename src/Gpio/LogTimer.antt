-- ===== src/Gpio/LogTimer.antt =====
-- apps/gpio_timer/src/log_timer.c. `armed` is the period of the kernel timer while it runs.
pub mod Ticks
use pcan_alterative.Base.{ℕ, ◌+◌, ◌%◌, ◌^◌, Bool, true, false, List, [], ◌∷◌, Option, none, some}
use pcan_alterative.Base.{Result, ok, err, einval, ealready, ◌==◌, if◌then◌else◌}

pub record LogTimer : Type 0 where
  pub has_cb : Bool
  pub tick_seq : ℕ
  pub running : Bool
  pub armed : Option ℕ

-- What the tick callback is called with: the sequence number and the time.
abbrev pub Tick : Type 0
Tick = ℕ × ℕ

unfoldable pub tick_expiry : ℕ → LogTimer → LogTimer × List Tick
tick_expiry uptime_ticks t =
    let seq = (t.tick_seq + 1) % 2 ^ 32 in
    (record t { tick_seq = seq }, if t.has_cb then (seq, uptime_ticks) ∷ [] else [])

unfoldable pub log_timer_start : ℕ → Bool → LogTimer → LogTimer × Result (Unit {0})
log_timer_start period_ms has_cb t =
    if period_ms == 0
    then (t, err einval)
    else if t.running
    then (t, err ealready)
    else (record { has_cb = has_cb; tick_seq = 0; running = true; armed = some period_ms }, ok tt)

unfoldable pub log_timer_stop : LogTimer → LogTimer
log_timer_stop t =
    if t.running then record t { armed = none; running = false; has_cb = false } else t

unfoldable pub log_timer_seq : LogTimer → ℕ
log_timer_seq t = t.tick_seq
