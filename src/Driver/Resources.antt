-- ===== src/Driver/Resources.antt =====
-- What the driver of petalinux/components/modules/xilinx_can/xilinx_can.c holds of the kernel's
-- resources, and how often its clocks are enabled and prepared, read off the history of its calls.
use zynq_can_sja1000_top.Common.{
  ℕ, suc, ℤ, arith, refl, ◌+◌, ◌-◌, ◌≡◌, ◌∙◌, ap, List, [], ◌∷◌, if◌then◌else◌, ltb, ◌&&◌, Bool,
  true, false, is_negative, is_nonzero,
}
use zynq_can_sja1000_top.Kernel.{Event, Clk, can_clk, bus_clk, History}
use zynq_can_sja1000_top.Driver.{World, emit}

pub data Resource : Type 0 where
  irq_line can_clock bus_clock candev netdev napi_context registration : Resource

abbrev pub clock : Clk → Resource
clock can_clk = can_clock
clock bus_clk = bus_clock

abbrev pub same : Resource → Resource → Bool
same irq_line irq_line = true
same can_clock can_clock = true
same bus_clock bus_clock = true
same candev candev = true
same netdev netdev = true
same napi_context napi_context = true
same registration registration = true
same _ _ = false

-- The list without the newest entry for a resource.
abbrev pub release : Resource → List Resource → List Resource
release r [] = []
release r (s ∷ rs) = let rest = release r rs in if same r s then rs else s ∷ rest

-- `free_candev` frees the newest device, and with it the NAPI contexts that were added to it and
-- not deleted.
abbrev pub free_device : List Resource → List Resource
free_device [] = []
free_device (netdev ∷ rs) = rs
free_device (napi_context ∷ rs) = free_device rs
free_device (r ∷ rs) = r ∷ free_device rs

-- What is held, the newest first; `candev` is an open CAN device, `netdev` an allocated one, and
-- `registration` one that is registered. A call that failed acquires nothing.
abbrev pub held : History → List Resource
held [] = []
held (Event.request_irq r ∷ h) = if is_negative r then held h else irq_line ∷ held h
held (Event.clk_prepare_enable c r ∷ h) = if is_nonzero r then held h else clock c ∷ held h
held (Event.open_candev r ∷ h) = if is_nonzero r then held h else candev ∷ held h
held (Event.alloc_candev true ∷ h) = netdev ∷ held h
held (Event.free_candev ∷ h) = free_device (held h)
held (Event.napi_add ∷ h) = napi_context ∷ held h
held (Event.napi_del ∷ h) = release napi_context (held h)
held (Event.register_candev r ∷ h) = if is_nonzero r then held h else registration ∷ held h
held (Event.unregister_candev ∷ h) = release registration (held h)
held (Event.free_irq ∷ h) = release irq_line (held h)
held (Event.clk_disable_unprepare c ∷ h) = release (clock c) (held h)
held (Event.close_candev ∷ h) = release candev (held h)
held (_ ∷ h) = held h

-- The kernel's two counts for a clock.
pub record Count : Type 0 where
  pub enables : ℕ
  pub prepares : ℕ

-- The counts of both clocks. `faults` counts the accesses of a register while one of the clocks
-- was off, `warnings` the calls that disable or unprepare a clock whose count was 0 already, which
-- the kernel warns of and leaves at 0.
pub record Power : Type 0 where
  pub can : Count
  pub bus : Count
  pub faults : ℕ
  pub warnings : ℕ

abbrev pub count : Clk → Power → Count
count can_clk p = p.can
count bus_clk p = p.bus

abbrev pub set_count : Clk → Count → Power → Power
set_count can_clk n p = record p { can = n }
set_count bus_clk n p = record p { bus = n }

-- Both clocks are enabled.
abbrev pub is_on : Power → Bool
is_on p = ltb 0 p.can.enables && ltb 0 p.bus.enables

abbrev pub warn_if_zero : ℕ → Power → Power
warn_if_zero n p = record p { warnings = p.warnings + (if ltb 0 n then 0 else 1) }

abbrev pub access : Power → Power
access p = if is_on p then p else record p { faults = suc p.faults }

abbrev pub enable : Clk → Power → Power
enable c p = let n = count c p in set_count c (record n { enables = n.enables + 1 }) p

abbrev pub prepare : Clk → Power → Power
prepare c p = let n = count c p in set_count c (record n { prepares = n.prepares + 1 }) p

abbrev pub disable : Clk → Power → Power
disable c p =
    let n = count c p in
    warn_if_zero n.enables (set_count c (record n { enables = n.enables - 1 }) p)

abbrev pub unprepare : Clk → Power → Power
unprepare c p =
    let n = count c p in
    warn_if_zero n.prepares (set_count c (record n { prepares = n.prepares - 1 }) p)

abbrev pub power : History → Power
power [] = record {
  can = record { enables = 0; prepares = 0 };
  bus = record { enables = 0; prepares = 0 };
  faults = 0;
  warnings = 0;
}
power (Event.ioread o r x ∷ h) = access (power h)
power (Event.iowrite o r x ∷ h) = access (power h)
power (Event.clk_prepare_enable c r ∷ h) =
    if is_nonzero r then power h else enable c (prepare c (power h))
power (Event.clk_enable c r ∷ h) = if is_nonzero r then power h else enable c (power h)
power (Event.clk_disable c ∷ h) = disable c (power h)
power (Event.clk_disable_unprepare c ∷ h) = unprepare c (disable c (power h))
power (_ ∷ h) = power h

-- From `w` to `w'` nothing was acquired or released, and if both clocks were on they stayed so
-- and no register was accessed without them.
pub record Keeps (w w' : World) : Type 0 where
  pub resources : held w'.history ≡ held w.history
  pub clocks : is_on (power w.history) ≡ true → power w'.history ≡ power w.history

pub Keeps-trans : {u v w : World} → Keeps u v → Keeps v w → Keeps u w
Keeps-trans s t = record {
  resources = t.resources ∙ s.resources;
  clocks = λ on. t.clocks (ap is_on (s.clocks on) ∙ on) ∙ s.clocks on;
}

-- `rs` is held, and the clocks have the counts `p`.
abbrev pub At : List Resource → Power → World → Type 0
At rs p w = (held w.history ≡ rs) × (power w.history ≡ p)

abbrev pub here : (w : World) → At (held w.history) (power w.history) w
here w = (refl, refl)

-- The effect of `clk_prepare_enable` and of `clk_disable_unprepare`.
abbrev pub take : Clk → Power → Power
take c p = enable c (prepare c p)

abbrev pub give : Clk → Power → Power
give c p = unprepare c (disable c p)

abbrev pub take_both : Power → Power
take_both p = take bus_clk (take can_clk p)

-- What a device holds between its probe and its removal, while it is down.
abbrev pub device : List Resource
device = registration ∷ napi_context ∷ netdev ∷ []

pub give-take : (c : Clk) (p : Power) → give c (take c p) ≡ p
give-take can_clk p = ground arith
give-take bus_clk p = ground arith

pub give-take_both : (p : Power) → give can_clk (give bus_clk (take_both p)) ≡ p
give-take_both p = ground arith

pub is_on-take_both : (p : Power) → is_on (take_both p) ≡ true
is_on-take_both p = ground arith

module _ {rs : List Resource} {p : Power} where
  pub At-take :
      (c : Clk) (r : ℤ) (w : World)
      → is_nonzero r ≡ false
      → At rs p w
      → At (clock c ∷ rs) (take c p) (emit (Event.clk_prepare_enable c r) w).1
  At-take c r w z a = (rw (z, a.0) refl, rw (z, a.1) refl)

  pub At-refused :
      (c : Clk) (r : ℤ) (w : World)
      → is_nonzero r ≡ true
      → At rs p w
      → At rs p (emit (Event.clk_prepare_enable c r) w).1
  At-refused c r w z a = (rw (z, a.0) refl, rw (z, a.1) refl)

  pub At-give :
      (c : Clk) (w : World)
      → At (clock c ∷ rs) (take c p) w
      → At rs p (emit (Event.clk_disable_unprepare c) w).1
  At-give can_clk w a = (rw a.0 refl, rw a.1 (give-take can_clk p))
  At-give bus_clk w a = (rw a.0 refl, rw a.1 (give-take bus_clk p))

  pub Keeps-At : {w w' : World} → Keeps w w' → is_on p ≡ true → At rs p w → At rs p w'
  Keeps-At s on a = (s.resources ∙ a.0, s.clocks (ap is_on a.1 ∙ on) ∙ a.1)
