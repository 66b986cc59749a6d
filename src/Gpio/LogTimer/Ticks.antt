-- ===== src/Gpio/LogTimer/Ticks.antt =====
-- The sequence numbers of the periodic tick.
use pcan_alterative.Base.{ℕ, ◌+◌, ◌^◌, ◌<◌, ◌≡◌, ◌≢◌, refl, true, false, List, []}
use pcan_alterative.Base.{◌∷◌, ◌++◌, some, length, ok, err, ealready, einval, arith, Bool}
use pcan_alterative.Gpio.LogTimer.{
  LogTimer, Tick, tick_expiry, log_timer_start, log_timer_stop, log_timer_seq,
}

-- The timer expires at each of the times, one after the other.
unfoldable pub expiries : List ℕ → LogTimer → LogTimer × List Tick
unfolding tick_expiry
expiries [] t = (t, [])
expiries (now ∷ times) t =
    let (t', out) = tick_expiry now t in let (t'', more) = expiries times t' in (t'', out ++ more)

-- The times numbered from `n + 1` on.
abbrev pub numbered : ℕ → List ℕ → List Tick
numbered n [] = []
numbered n (now ∷ times) = (n + 1, now) ∷ numbered (n + 1) times

expiries-numbered :
    (times : List ℕ) (t : LogTimer)
    → t.has_cb ≡ true
    → t.tick_seq + length times < 2 ^ 32
    → ((expiries times t).1 ≡ numbered t.tick_seq times)
      × ((expiries times t).0.tick_seq ≡ t.tick_seq + length times)
unfolding expiries
expiries-numbered [] t hc h = (refl, omega arith)
expiries-numbered (now ∷ times) t hc h =
    ground (arith, expiries-numbered times (record t { tick_seq = t.tick_seq + 1 }))

-- Starting a stopped timer with a callback and a period that is not zero succeeds; the expiries
-- that follow are then numbered 1, 2, 3, … without a gap, and `log_timer_seq` is their number, as
-- long as that fits a `uint32_t`.
pub start_then_ticks :
    (period : ℕ) (times : List ℕ) (t : LogTimer)
    → period ≢ 0
    → t.running ≡ false
    → length times < 2 ^ 32
    → let (t', result) = log_timer_start period true t in
      let (t'', ticks) = expiries times t' in
      (result ≡ ok tt) × (ticks ≡ numbered 0 times) × (log_timer_seq t'' ≡ length times)
unfolding log_timer_start log_timer_seq
start_then_ticks period times t hp hr h = ground (
  arith,
  expiries-numbered times
      (record { has_cb = true; tick_seq = 0; running = true; armed = some period }),
)

-- What `log_timer_start` refuses it leaves alone: a period of zero, and a timer that runs.
pub start_refused :
    (period : ℕ) (has_cb : Bool) (t : LogTimer)
    → ((period ≡ 0) → log_timer_start period has_cb t ≡ (t, err einval))
      × (period ≢ 0 → t.running ≡ true → log_timer_start period has_cb t ≡ (t, err ealready))
unfolding log_timer_start
start_refused period has_cb t = ground arith

-- Stopping is idempotent, and a stopped timer can be started again with a period that is not zero,
-- from sequence number zero.
pub stop_then_start :
    (period : ℕ) (has_cb : Bool) (t : LogTimer)
    → period ≢ 0
    → (log_timer_stop (log_timer_stop t) ≡ log_timer_stop t)
      × (log_timer_start period has_cb (log_timer_stop t)
          ≡ (record { has_cb = has_cb; tick_seq = 0; running = true; armed = some period }, ok tt))
unfolding log_timer_start log_timer_stop
stop_then_start period has_cb t h = ground arith
