-- ===== src/Handset/Power.antt =====
-- Sleep, waking and the change of links: what has power when.
use zephyr_app.Common.{Bool, arith, false, if◌then◌else◌, not, refl, true, ◌&&◌, ◌==◌, ◌∙◌, ◌≡◌}
use zephyr_app.Handset.{
  Handset, can_type, connect_switch, linksw_work_handler, rf24_deinit, rf24_init, rf24_type,
  sleep_begin, sleep_end, sleep_work_handler, wake_begin, wake_end,
}

-- Where the handset is: in the pause of `system_sleep`, after it, or in the pause of `system_wake`.
-- `crossed` is in both pauses, and `cut` in the pause of `system_wake` after the rest of
-- `system_sleep`; what comes of it is `dark`, and `dark_falling` in the next pause of `system_sleep`.
pub data Phase : Type 0 where
  awake : Phase
  falling : Phase
  asleep : Phase
  rising : Phase
  crossed : Phase
  cut : Phase
  dark : Phase
  dark_falling : Phase

module _ (ready : Bool) where
  -- What can happen. The work of the link switch runs 20 ms after the key, so still in the pause of
  -- `system_sleep`; `system_wake` keeps the queue that runs it, and nothing runs in STOP. The pause of
  -- `system_sleep` is the shorter one, so that it ends first where the power button is pressed in it.
  pub data Step : Phase → Handset → Phase → Handset → Type 0 where
    link : (h : Handset) (pin : Bool) → Step awake h awake (linksw_work_handler ready pin h)
    late_link :
        (h : Handset) (pin : Bool) → Step falling h falling (linksw_work_handler ready pin h)
    sleep : (h : Handset) → Step awake h falling (sleep_begin h)
    off : (h : Handset) → Step falling h asleep (sleep_end ready h)
    wake :
        (h : Handset) (pin : Bool)
        → sleep_work_handler pin h ≡ true
        → Step asleep h rising (wake_begin ready h)
    on : (h : Handset) → Step rising h awake (wake_end h)
    press :
        (h : Handset) (pin : Bool)
        → sleep_work_handler pin h ≡ true
        → Step falling h crossed (wake_begin ready h)
    cross : (h : Handset) → Step crossed h cut (sleep_end ready h)
    dim : (h : Handset) → Step cut h dark (wake_end h)
    dark_link : (h : Handset) (pin : Bool) → Step dark h dark (linksw_work_handler ready pin h)
    dark_sleep : (h : Handset) → Step dark h dark_falling (sleep_begin h)
    dark_late_link :
        (h : Handset) (pin : Bool)
        → Step dark_falling h dark_falling (linksw_work_handler ready pin h)
    dark_off : (h : Handset) → Step dark_falling h asleep (sleep_end ready h)
    dark_press :
        (h : Handset) (pin : Bool)
        → sleep_work_handler pin h ≡ true
        → Step dark_falling h crossed (wake_begin ready h)

  -- After `power_init` and the load of the settings, `main` calls `connect_switch`.
  pub data Reach (h : Handset) : Phase → Handset → Type 0 where
    start : Reach h awake (connect_switch ready h)
    next : {p q : Phase} {t u : Handset} → Reach h p t → Step p t q u → Reach h q u

  -- The events are those of the chosen link.
  abbrev pub HasEvent : Handset → Type 0
  HasEvent h =
      (h.can_event ≡ (h.connect_type == can_type))
      × (h.rf24_event ≡ not (h.connect_type == can_type))

  -- The display and the stick have power, and of the links the chosen one alone.
  abbrev pub IsOn : Handset → Type 0
  IsOn h =
      (h.dis_power ≡ true)
      × (h.handler_power ≡ true)
      × (h.can_power ≡ (h.connect_type == can_type))
      × (h.rf24_power ≡ (ready && not (h.connect_type == can_type)))

  abbrev pub IsOff : Handset → Type 0
  IsOff h =
      (h.dis_power ≡ false)
      × (h.handler_power ≡ false)
      × (h.can_power ≡ false)
      × (h.rf24_power ≡ false)

  -- The display and the stick have no power, and of the links at most the chosen one.
  abbrev pub IsDark : Handset → Type 0
  IsDark h =
      (h.dis_power ≡ false)
      × (h.handler_power ≡ false)
      × ((h.can_power && not (h.connect_type == can_type)) ≡ false)
      × ((h.rf24_power && not (ready && not (h.connect_type == can_type))) ≡ false)

  abbrev pub IsPowered : Phase → Handset → Type 0
  IsPowered awake h = (h.sleeping ≡ false) × (h.waking ≡ false) × IsOn h × HasEvent h
  IsPowered falling h = (h.sleeping ≡ true) × (h.waking ≡ false) × IsOn h × HasEvent h
  IsPowered asleep h = (h.sleeping ≡ true) × (h.waking ≡ false) × IsOff h × HasEvent h
  IsPowered rising h = (h.sleeping ≡ true) × (h.waking ≡ true) × IsOn h × HasEvent h
  IsPowered crossed h = (h.sleeping ≡ true) × (h.waking ≡ true) × IsOn h × HasEvent h
  IsPowered cut h = (h.sleeping ≡ true) × (h.waking ≡ true) × IsOff h × HasEvent h
  IsPowered dark h = (h.sleeping ≡ false) × (h.waking ≡ false) × IsDark h × HasEvent h
  IsPowered dark_falling h = (h.sleeping ≡ true) × (h.waking ≡ false) × IsDark h × HasEvent h

  connect_switch-IsOn :
      (h : Handset)
      → h.dis_power ≡ true
      → h.handler_power ≡ true
      → (h.rf24_power && not ready) ≡ false
      → let t = connect_switch ready h in
        IsOn t × HasEvent t × (t.sleeping ≡ h.sleeping) × (t.waking ≡ h.waking)
  unfolding connect_switch rf24_init rf24_deinit
  connect_switch-IsOn h d p r = ground (arith, d, p, r)

  linksw-IsOn :
      (h : Handset) (pin : Bool)
      → IsOn h
      → HasEvent h
      → let t = linksw_work_handler ready pin h in
        IsOn t × HasEvent t × (t.sleeping ≡ h.sleeping) × (t.waking ≡ h.waking)
  unfolding linksw_work_handler
  linksw-IsOn h true o e = (o, e, refl, refl)
  linksw-IsOn h false o e =
      connect_switch-IsOn
        (record h { connect_type = if h.connect_type == can_type then rf24_type else can_type }) o.0
        o.1 (ground (arith, o))

  connect_switch-IsDark :
      (h : Handset)
      → h.dis_power ≡ false
      → h.handler_power ≡ false
      → (h.rf24_power && not ready) ≡ false
      → let t = connect_switch ready h in
        IsDark t × HasEvent t × (t.sleeping ≡ h.sleeping) × (t.waking ≡ h.waking)
  unfolding connect_switch rf24_init rf24_deinit
  connect_switch-IsDark h d p r = ground (arith, d, p, r)

  linksw-IsDark :
      (h : Handset) (pin : Bool)
      → IsDark h
      → HasEvent h
      → let t = linksw_work_handler ready pin h in
        IsDark t × HasEvent t × (t.sleeping ≡ h.sleeping) × (t.waking ≡ h.waking)
  unfolding linksw_work_handler
  linksw-IsDark h true o e = (o, e, refl, refl)
  linksw-IsDark h false o e =
      connect_switch-IsDark
        (record h { connect_type = if h.connect_type == can_type then rf24_type else can_type }) o.0
        o.1 (ground (arith, o))

  Step-IsPowered : {p q : Phase} {h t : Handset} → Step p h q t → IsPowered p h → IsPowered q t
  unfolding sleep_begin sleep_end wake_begin wake_end rf24_init rf24_deinit
  Step-IsPowered (link h pin) (s, w, o, e) =
      let (on_after, event, asleep_same, waking_same) = linksw-IsOn h pin o e in
      (asleep_same ∙ s, waking_same ∙ w, on_after, event)
  Step-IsPowered (late_link h pin) (s, w, o, e) =
      let (on_after, event, asleep_same, waking_same) = linksw-IsOn h pin o e in
      (asleep_same ∙ s, waking_same ∙ w, on_after, event)
  Step-IsPowered (sleep h) (s, w, o, e) = (refl, w, o, e)
  Step-IsPowered (off h) p = ground (arith, p)
  Step-IsPowered (wake h pin g) p = ground (arith, p)
  Step-IsPowered (on h) (s, w, o, e) = (refl, refl, o, e)
  Step-IsPowered (press h pin g) p = ground (arith, p)
  Step-IsPowered (cross h) p = ground (arith, p)
  Step-IsPowered (dim h) (s, w, o, e) = (refl, refl, ground (arith, o), e)
  Step-IsPowered (dark_link h pin) (s, w, o, e) =
      let (on_after, event, asleep_same, waking_same) = linksw-IsDark h pin o e in
      (asleep_same ∙ s, waking_same ∙ w, on_after, event)
  Step-IsPowered (dark_sleep h) (s, w, o, e) = (refl, w, o, e)
  Step-IsPowered (dark_late_link h pin) (s, w, o, e) =
      let (on_after, event, asleep_same, waking_same) = linksw-IsDark h pin o e in
      (asleep_same ∙ s, waking_same ∙ w, on_after, event)
  Step-IsPowered (dark_off h) p = ground (arith, p)
  Step-IsPowered (dark_press h pin g) p = ground (arith, p)

  -- Where the display and the stick have power at the start and the radio has none, each state that
  -- can be reached has the power of its phase: awake, in the pauses and while waking, the display, the
  -- stick and the chosen link alone; asleep, nothing. Only where the power button was pressed in the
  -- pause of `system_sleep` is it otherwise, from the end of that pause until the handset sleeps or
  -- wakes again: the display and the stick have no power, awake and in the next pause of
  -- `system_sleep`, and of the links the chosen one at most. The events are those of the chosen link.
  pub Reach-IsPowered :
      (h : Handset) {p : Phase} {t : Handset}
      → h.dis_power ≡ true
      → h.handler_power ≡ true
      → h.rf24_power ≡ false
      → h.sleeping ≡ false
      → h.waking ≡ false
      → Reach h p t
      → IsPowered p t
  Reach-IsPowered h d l r s w start =
      let (on_after, event, asleep_same, waking_same) =
        connect_switch-IsOn h d l (ground (arith, r)) in
      (asleep_same ∙ s, waking_same ∙ w, on_after, event)
  Reach-IsPowered h d l r s w (next run st) = Step-IsPowered st (Reach-IsPowered h d l r s w run)

-- The power button in the pause of `system_sleep`: `system_wake` begins, and then what is left of
-- `system_sleep` switches off what it switched on. The handset is awake, and without any power.
pub wake_race :
    (ready : Bool) (h : Handset)
    → h.waking ≡ false
    → IsOn ready h
    → (sleep_work_handler false (sleep_begin h) ≡ true)
      × (let t = wake_end (sleep_end ready (wake_begin ready (sleep_begin h))) in
          (t.sleeping ≡ false) × (t.waking ≡ false) × IsOff ready t)
unfolding sleep_work_handler sleep_begin sleep_end wake_begin wake_end rf24_init rf24_deinit
wake_race ready h w o = ground (arith, w, o)
