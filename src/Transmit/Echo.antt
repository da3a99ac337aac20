-- ===== src/Transmit/Echo.antt =====
-- The kernel's echo buffers, which xcan_start_xmit fills by can_put_echo_skb and
-- xcan_tx_interrupt empties by can_get_echo_skb: what the calls do to each slot.
pub mod Held
pub mod Refine
pub mod Send
pub mod Account
pub mod Same
pub mod Tests
use zynq_can_sja1000_top.Common.{
  ℕ, ◌==◌, if◌then◌else◌, ◌≡◌, ◌≢◌, arith, Option, none, some, List, [], ◌∷◌, ◌++◌,
}
use zynq_can_sja1000_top.Can.{CanFrame}
use zynq_can_sja1000_top.Kernel.{Event, History}
use zynq_can_sja1000_top.Transmit.Ring.{NotIn}

pub data EchoCall : Type 0 where
  put : CanFrame → ℕ → EchoCall
  get : ℕ → EchoCall

-- The calls so far, the newest first.
abbrev pub echo_calls : History → List EchoCall
echo_calls [] = []
echo_calls (Event.put_echo_skb cf s ∷ h) = put cf s ∷ echo_calls h
echo_calls (Event.get_echo_skb s ∷ h) = get s ∷ echo_calls h
echo_calls (_ ∷ h) = echo_calls h

-- A frame that is put into a slot in use is thrown away; one that is taken out leaves its slot
-- empty.
abbrev pub keep : Option CanFrame → CanFrame → Option CanFrame
keep none cf = some cf
keep (some old) cf = some old

abbrev pub slot_frame : List EchoCall → ℕ → Option CanFrame
slot_frame [] s = none
slot_frame (put cf t ∷ calls) s =
    let before = slot_frame calls s in if t == s then keep before cf else before
slot_frame (get t ∷ calls) s = let before = slot_frame calls s in if t == s then none else before

abbrev pub append_some : List CanFrame → Option CanFrame → List CanFrame
append_some cfs none = cfs
append_some cfs (some cf) = cfs ++ (cf ∷ [])

-- The frames echoed to the network stack so far, the oldest first.
abbrev pub echoed : List EchoCall → List CanFrame
echoed [] = []
echoed (put cf t ∷ calls) = echoed calls
echoed (get t ∷ calls) = append_some (echoed calls) (slot_frame calls t)

-- The frames put into the ring so far, the oldest first.
abbrev pub accepted : List EchoCall → List CanFrame
accepted [] = []
accepted (put cf t ∷ calls) = accepted calls ++ (cf ∷ [])
accepted (get t ∷ calls) = accepted calls

-- The slots hold the frames, one each.
abbrev pub AreIn : List EchoCall → List ℕ → List CanFrame → Type 0
AreIn calls [] [] = Unit {0}
AreIn calls [] (cf ∷ cfs) = ⊥
AreIn calls (s ∷ ss) [] = ⊥
AreIn calls (s ∷ ss) (cf ∷ cfs) = (slot_frame calls s ≡ some cf) × AreIn calls ss cfs

slot_frame-put :
    (cf : CanFrame) (t s : ℕ) (calls : List EchoCall)
    → s ≢ t
    → slot_frame (put cf t ∷ calls) s ≡ slot_frame calls s
slot_frame-put cf t s calls h = ground arith

slot_frame-get :
    (t s : ℕ) (calls : List EchoCall) → s ≢ t → slot_frame (get t ∷ calls) s ≡ slot_frame calls s
slot_frame-get t s calls h = ground arith

pub AreIn-put :
    (cf : CanFrame) (t : ℕ) (calls : List EchoCall) (ss : List ℕ) (cfs : List CanFrame)
    → NotIn t ss
    → AreIn calls ss cfs
    → AreIn (put cf t ∷ calls) ss cfs
AreIn-put cf t calls [] [] n a = tt
AreIn-put cf t calls [] (c ∷ cfs) n a = a
AreIn-put cf t calls (s ∷ ss) [] n a = a
AreIn-put cf t calls (s ∷ ss) (c ∷ cfs) n a =
    (rw (slot_frame-put cf t s calls n.0) (a.0), AreIn-put cf t calls ss cfs n.1 a.1)

pub AreIn-get :
    (t : ℕ) (calls : List EchoCall) (ss : List ℕ) (cfs : List CanFrame)
    → NotIn t ss
    → AreIn calls ss cfs
    → AreIn (get t ∷ calls) ss cfs
AreIn-get t calls [] [] n a = tt
AreIn-get t calls [] (c ∷ cfs) n a = a
AreIn-get t calls (s ∷ ss) [] n a = a
AreIn-get t calls (s ∷ ss) (c ∷ cfs) n a =
    (rw (slot_frame-get t s calls n.0) (a.0), AreIn-get t calls ss cfs n.1 a.1)

pub AreIn-append :
    (calls : List EchoCall) (ss : List ℕ) (cfs : List CanFrame) (s : ℕ) (cf : CanFrame)
    → AreIn calls ss cfs
    → slot_frame calls s ≡ some cf
    → AreIn calls (ss ++ (s ∷ [])) (cfs ++ (cf ∷ []))
AreIn-append calls [] [] s cf a e = (e, tt)
AreIn-append calls [] (c ∷ cfs) s cf a e = absurd a
AreIn-append calls (t ∷ ss) [] s cf a e = absurd a
AreIn-append calls (t ∷ ss) (c ∷ cfs) s cf a e = (a.0, AreIn-append calls ss cfs s cf a.1 e)
