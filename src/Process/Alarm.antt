-- ===== src/Process/Alarm.antt =====
-- `sys_alarm` of src/kernel_sched_sleep_queue.c.
use unstable_os.Base.{
  arith, if◌then◌else◌, leb, ℕ, ◌!=◌, ◌%◌, ◌*◌, ◌+◌, ◌-◌, ◌/◌, ◌<◌, ◌==◌, ◌^◌, ◌≡◌, ◌≤◌,
}

abbrev pub rtc_timer_resolution_hz : ℕ
rtc_timer_resolution_hz = 1024

-- `(unsigned)((old + hz - 1) / hz)` for `old = uptime - next`, which is negative while the alarm is
-- still to come. C rounds a quotient towards zero, and the unsigned word of `-k` is `2 ^ 32 - k`.
abbrev pub prev_secs : ℕ → ℕ → ℕ
prev_secs uptime next =
    if leb next uptime
    then ((uptime - next + (rtc_timer_resolution_hz - 1)) / rtc_timer_resolution_hz) % 2 ^ 32
    else if leb (next - uptime) (rtc_timer_resolution_hz - 1)
    then 0
    else (2 ^ 32
        - ((next - uptime - (rtc_timer_resolution_hz - 1)) / rtc_timer_resolution_hz) % 2 ^ 32)
      % 2 ^ 32

-- The result and the new `next_alarm`, in clicks of the clock; 0 is no alarm. The product is one of
-- `unsigned`.
pub sys_alarm : ℕ → ℕ → ℕ → ℕ × ℕ
sys_alarm uptime next seconds = (
  if next != 0 then prev_secs uptime next else 0,
  if seconds == 0 then 0 else uptime + (seconds * rtc_timer_resolution_hz) % 2 ^ 32,
)

-- An alarm of `n` seconds is set for exactly `n` seconds from now, up to the `2 ^ 22` seconds that fit
-- the word, and a call with 0 turns it off.
pub sys_alarm_sets :
    (uptime next n : ℕ)
    → 0 < n
    → n < 2 ^ 22
    → ((sys_alarm uptime next n).1 ≡ uptime + n * 1024) × ((sys_alarm uptime next 0).1 ≡ 0)
unfolding sys_alarm
sys_alarm_sets uptime next n pos small = ground arith

-- A second call that comes before the alarm of `n` seconds has gone off, with at least two seconds of
-- it to run, reports more than four thousand million seconds, never the rest of the time.
pub sys_alarm_reports_wrong :
    (uptime now n m : ℕ)
    → n < 2 ^ 22
    → uptime ≤ now
    → now + 2048 ≤ uptime + n * 1024
    → 4 * 10 ^ 9 < (sys_alarm now (sys_alarm uptime 0 n).1 m).0
unfolding sys_alarm
sys_alarm_reports_wrong uptime now n m small later runs = ground arith
