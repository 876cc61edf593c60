-- ===== src/Gateway/Led.antt =====
-- The lamps of the gateway (applications/gateway/src/led.c): the radio's, which blinks while there is
-- traffic, the one for errors, which tests itself at the start, and the system's.
use zephyr_app.Common.{
  Bool, arith, false, if_both, if◌then◌else◌, ltb, not, refl, true, u32, ℕ, ◌+◌, ◌-◌, ◌^◌, ◌||◌,
  ◌∙◌, ◌≡◌,
}

-- The levels of the lamps, the static variables, and whether the two delayed works are scheduled.
pub record Led : Type 0 where
  pub led_rf24 : Bool
  pub led_err : Bool
  pub led_sys : Bool
  pub rf24_last_activity : ℕ
  pub blinking : Bool
  pub error_latched : Bool
  pub blink_scheduled : Bool
  pub selftest_scheduled : Bool

abbrev pub rf24_activity_timeout_ms : ℕ
rf24_activity_timeout_ms = 400

pub gw_led_init : Led → Led
gw_led_init s = record s {
  led_rf24 = true;
  led_err = true;
  led_sys = false;
  blinking = false;
  blink_scheduled = false;
  selftest_scheduled = true;
}

pub gw_led_sys_on : Led → Led
gw_led_sys_on s = record s { led_sys = true }

pub gw_led_error_on : Led → Led
gw_led_error_on s = record s { error_latched = true; led_err = true }

pub err_selftest_work_handler : Led → Led
err_selftest_work_handler s = record s { led_err = false; selftest_scheduled = false }

-- at the time `now`, of 32 bits
pub led_blink_work_handler : ℕ → Led → Led
led_blink_work_handler now s =
    let elapsed = u32 (now + 2 ^ 32 - s.rf24_last_activity) in
    if ltb elapsed rf24_activity_timeout_ms
    then record s { led_rf24 = not s.led_rf24; blink_scheduled = true }
    else record s { led_rf24 = true; blinking = false; blink_scheduled = false }

pub gw_led_rf24_activity : ℕ → Led → Led
gw_led_rf24_activity now s =
    let t = record s { rf24_last_activity = now } in
    if s.blinking then t else record t { blinking = true; led_rf24 = false; blink_scheduled = true }

-- `k_sys_fatal_error_handler`, for whether the reason is a stack check or a CPU exception
pub k_sys_fatal_error_handler : Bool → Led → Led
k_sys_fatal_error_handler handled s = if handled then gw_led_error_on s else s

-- What can happen after the start, in any order: a work runs only if it is scheduled.
pub data Step : Led → Led → Type 0 where
  system : (s : Led) → Step s (gw_led_sys_on s)
  error : (s : Led) → Step s (gw_led_error_on s)
  fatal : (s : Led) (handled : Bool) → Step s (k_sys_fatal_error_handler handled s)
  selftest : (s : Led) → s.selftest_scheduled ≡ true → Step s (err_selftest_work_handler s)
  blink : (s : Led) (now : ℕ) → s.blink_scheduled ≡ true → Step s (led_blink_work_handler now s)
  activity : (s : Led) (now : ℕ) → Step s (gw_led_rf24_activity now s)

pub data Run (s : Led) : Led → Type 0 where
  here : Run s s
  next : {t u : Led} → Run s t → Step t u → Run s u

-- The work that ends the blinking is scheduled exactly while the lamp blinks, and otherwise the lamp
-- is on.
abbrev pub IsLit : Led → Type 0
IsLit s = (s.blinking ≡ s.blink_scheduled) × ((s.blinking || s.led_rf24) ≡ true)

Step-IsLit : {s t : Led} → Step s t → IsLit s → IsLit t
unfolding gw_led_sys_on gw_led_error_on k_sys_fatal_error_handler err_selftest_work_handler
    led_blink_work_handler gw_led_rf24_activity
Step-IsLit (system s) h = h
Step-IsLit (error s) h = h
Step-IsLit (fatal s handled) h = if_both IsLit handled _ _ (λ e. h) (λ e. h)
Step-IsLit (selftest s e) h = h
Step-IsLit (blink s now e) h =
    if_both IsLit (ltb (u32 (now + 2 ^ 32 - s.rf24_last_activity)) 400) _ _
      (λ f. (h.0 ∙ e, ground (arith, h, e))) (λ f. (refl, refl))
Step-IsLit (activity s now) h = if_both IsLit s.blinking _ _ (λ f. h) (λ f. (refl, refl))

-- In every state that can be reached after the start, the radio's lamp either blinks, with the work
-- scheduled that will end it, or is on with no such work: it never stays dark.
pub Run-IsLit : (s : Led) {t : Led} → Run (gw_led_init s) t → IsLit t
unfolding gw_led_init
Run-IsLit s here = (refl, refl)
Run-IsLit s (next r st) = Step-IsLit st (Run-IsLit s r)

-- The error lamp is on and the self-test over.
abbrev pub ShowsError : Led → Type 0
ShowsError s = (s.led_err ≡ true) × (s.selftest_scheduled ≡ false)

Step-ShowsError : {s t : Led} → Step s t → ShowsError s → ShowsError t
unfolding gw_led_sys_on gw_led_error_on k_sys_fatal_error_handler err_selftest_work_handler
    led_blink_work_handler gw_led_rf24_activity
Step-ShowsError (system s) h = h
Step-ShowsError (error s) h = (refl, h.1)
Step-ShowsError (fatal s handled) h = if_both ShowsError handled _ _ (λ e. (refl, h.1)) (λ e. h)
Step-ShowsError (selftest s e) h = absurd (ground (arith, h, e))
Step-ShowsError (blink s now e) h =
    if_both ShowsError (ltb (u32 (now + 2 ^ 32 - s.rf24_last_activity)) 400) _ _ (λ f. h) (λ f. h)
Step-ShowsError (activity s now) h = if_both ShowsError s.blinking _ _ (λ f. h) (λ f. h)

-- Once the self-test is over and an error shows, it shows for ever.
pub Run-ShowsError : {s t : Led} → Run s t → ShowsError s → ShowsError t
Run-ShowsError here h = h
Run-ShowsError (next r st) h = Step-ShowsError st (Run-ShowsError r h)

-- An error of the start-up, before the self-test ends, is latched and yet goes dark: that state is
-- reached by the error and then the end of the self-test.
error_goes_dark :
    (s : Led)
    → let t = err_selftest_work_handler (gw_led_error_on (gw_led_init s)) in
      Run (gw_led_init s) t × (t.error_latched ≡ true) × (t.led_err ≡ false)
unfolding err_selftest_work_handler gw_led_error_on gw_led_init
error_goes_dark s = (next (next here (error _)) (selftest _ refl), refl, refl)
