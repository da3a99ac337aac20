-- ===== src/Transmit/Ring.antt =====
-- The echo slots of the frames in flight. `tx_head` and `tx_tail` count without end, modulo
-- 2 ^ 32; their remainders by `tx_max` are the slots.
use native.Mathlib.Nat.{mod-mod_of_dvd, mod-add-mod, mod-eq_of_lt, mod-eq-sub-mod, mod-lt}
use native.Mathlib.Decide.{dec_lt}
use Prim.Native.Nat.{◌∣◌}
use zynq_can_sja1000_top.Common.{ℕ, zero, suc, ◌+◌, ◌-◌, ◌%◌, ◌^◌, ◌≤◌, ◌<◌, u32}
use zynq_can_sja1000_top.Common.{◌≡◌, ◌≢◌, sym, ap, ◌∙◌, arith, List, [], ◌∷◌, ◌++◌}

-- The slots of `n` frames from counter `t` on.
abbrev pub slots : ℕ → ℕ → ℕ → List ℕ
slots max t zero = []
slots max t (suc n) = t % max ∷ slots max (u32 (t + 1)) n

abbrev pub NotIn : ℕ → List ℕ → Type 0
NotIn x [] = Unit {0}
NotIn x (y ∷ ys) = (y ≢ x) × NotIn x ys

abbrev pub Distinct : List ℕ → Type 0
Distinct [] = Unit {0}
Distinct (x ∷ xs) = NotIn x xs × Distinct xs

-- One more frame takes the slot of the counter behind the last.
pub slots-suc :
    (max t n : ℕ) → t < 2 ^ 32 → slots max t (suc n) ≡ slots max t n ++ (u32 (t + n) % max ∷ [])
slots-suc max t zero h = let e : u32 (t + 0) ≡ t = omega arith in rw e
slots-suc max t (suc n) h =
    let e : u32 (u32 (t + 1) + n) ≡ u32 (t + suc n) = omega arith in
    ap (λ xs. t % max ∷ xs)
      (slots-suc max (u32 (t + 1)) n (omega arith)
        ∙ ap (λ s. slots max (u32 (t + 1)) n ++ (s % max ∷ [])) e)

module _ (max : ℕ) (divides : max ∣ 2 ^ 32) where
  -- Counters less than `max` apart have different slots, since `max` divides 2 ^ 32.
  slot-ne : (t d : ℕ) → 0 < d → d < max → u32 (t + d) % max ≢ t % max
  slot-ne t d pos small =
      let m : u32 (t + d) % max ≡ (t % max + d) % max =
        mod-mod_of_dvd max (t + d) divides ∙ sym (mod-add-mod t max d) in
      let r : t % max < max = mod-lt t (omega arith) in
      elim (dec_lt (t % max + d) max) [
        | yes p ↦ omega (arith, m, mod-eq_of_lt p)
        | no p ↦ omega (
          arith,
          m,
          mod-eq-sub-mod {n = t % max + d} {m = max} (omega arith),
          mod-eq_of_lt {n = t % max + d - max} {m = max} (omega arith),
        )
      ]

  -- The slot of the next frame is free while fewer than `max` are in flight.
  pub slots-fresh : (t n : ℕ) → t < 2 ^ 32 → n < max → NotIn (u32 (t + n) % max) (slots max t n)
  slots-fresh t zero h small = tt
  slots-fresh t (suc n) h small =
      let e : u32 (u32 (t + 1) + n) ≡ u32 (t + suc n) = omega arith in
      (
        λ p. slot-ne t (suc n) (omega arith) small (sym p),
        rw e at (slots-fresh (u32 (t + 1)) n (omega arith) (omega arith)),
      )

  slots-apart :
      (t d n : ℕ) → t < 2 ^ 32 → 0 < d → d + n ≤ max → NotIn (t % max) (slots max (u32 (t + d)) n)
  slots-apart t d zero h pos few = tt
  slots-apart t d (suc n) h pos few =
      let e : u32 (u32 (t + d) + 1) ≡ u32 (t + (d + 1)) = omega arith in
      (slot-ne t d pos (omega arith), rw e (slots-apart t (d + 1) n h (omega arith) (omega arith)))

  -- Up to `max` frames in flight have slots of their own.
  pub slots-Distinct : (t n : ℕ) → t < 2 ^ 32 → n ≤ max → Distinct (slots max t n)
  slots-Distinct t zero h few = tt
  slots-Distinct t (suc n) h few = (
    slots-apart t 1 n h (omega arith) (omega arith),
    slots-Distinct (u32 (t + 1)) n (omega arith) (omega arith),
  )
