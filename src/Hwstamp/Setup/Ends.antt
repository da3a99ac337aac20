-- ===== src/Hwstamp/Setup/Ends.antt =====
-- When main of timestamping.c gets to its loop, and with which socket options.
use zynq_can_sja1000_top.Common.{
  ℕ, ◌==◌, not, ◌&&◌, ◌||◌, if◌then◌else◌, Bool, true, false, none, some, ℤ, is_negative, List, [],
  ◌∷◌, ◌≡◌, refl, ap, ◌∙◌, inl, inr, ◌⊎◌, Bool-cases,
}
use zynq_can_sja1000_top.Hwstamp.{Outcome, bail, not_possible, proceed, configure}
use zynq_can_sja1000_top.Hwstamp.Options.{Settings}
use zynq_can_sja1000_top.Hwstamp.Setup.{
  SockOpt, opt_timestamp, opt_timestampns, opt_timestamping, Call, setsockopt, exit, Net, Prog,
  setup, set_device, set_if, show_options, show_option, bail_if, ◌>>◌, checked, socket, get_index,
  bind,
}

-- The options set so far with their values, the newest first.
abbrev pub options_set : List Call → List (SockOpt × ℕ)
options_set [] = []
options_set (setsockopt opt val r ∷ t) = (opt, val) ∷ options_set t
options_set (_ ∷ t) = options_set t

abbrev pub is_bail : Outcome → Bool
is_bail bail = true
is_bail _ = false

-- An option that is wanted must be accepted.
abbrev pub accepts : Net → (wanted : ℕ) → SockOpt → (val : ℕ) → Bool
accepts net wanted opt val = wanted == 0 || not (is_negative (net.setsockopt_result opt val))

-- What the program needs of the system.
abbrev pub is_ready : Net → Settings → Bool
is_ready net s =
    not (is_negative net.socket_result)
    && not (is_negative net.index_result)
    && not (is_bail (configure s.flags net.hwtstamp_result))
    && not (is_negative net.bind_result)
    && accepts net s.timestamp opt_timestamp 1
    && accepts net s.timestampns opt_timestampns 1
    && accepts net s.flags opt_timestamping s.flags

abbrev pub option_if : (wanted : ℕ) → SockOpt → (val : ℕ) → List (SockOpt × ℕ) → List (SockOpt × ℕ)
option_if wanted opt val rest = if wanted == 0 then rest else (opt, val) ∷ rest

-- The options that the arguments ask for, the last one set first.
abbrev pub wanted_options : Settings → List (SockOpt × ℕ)
wanted_options s =
    option_if s.flags opt_timestamping s.flags
      (option_if s.timestampns opt_timestampns 1 (option_if s.timestamp opt_timestamp 1 []))

-- The newest call is the end of the program.
abbrev pub has_exited : List Call → Bool
has_exited (exit ∷ t) = true
has_exited _ = false

abbrev Options : Type 0
Options = List (SockOpt × ℕ)

-- A part goes on exactly when `ok` is true, and has then set the options as `f` says; else the
-- program has ended.
abbrev Does : Prog → (ok : Bool) → (f : Options → Options) → Type 0
Does m ok f =
    (t : List Call)
    → ((ok ≡ true) × ((m t).0 ≡ some tt) × (options_set (m t).1 ≡ f (options_set t)))
      ⊎ ((ok ≡ false) × ((m t).0 ≡ none) × (has_exited (m t).1 ≡ true))

and_true : (b : Bool) → b ≡ (b && true)
and_true true = refl
and_true false = refl

then_some : (m n : Prog) (t : List Call) → (m t).0 ≡ some tt → (m >> n) t ≡ n (m t).1
then_some m n t e = rw (e, ◌>>◌) refl

then_none : (m n : Prog) (t : List Call) → (m t).0 ≡ none → (m >> n) t ≡ (none, (m t).1)
then_none m n t e = rw (e, ◌>>◌) refl

Does-then :
    (m n : Prog) (a b : Bool) (f g : Options → Options)
    → Does m a f
    → Does n b g
    → Does (m >> n) (a && b) (λ os. g (f os))
Does-then m n a b f g p q t = cases (p t) (q (m t).1)
  where
    Left : Options → Type 0
    Left os =
        ((a && b ≡ true) × (((m >> n) t).0 ≡ some tt) × (options_set ((m >> n) t).1 ≡ os))
        ⊎ ((a && b ≡ false) × (((m >> n) t).0 ≡ none) × (has_exited ((m >> n) t).1 ≡ true))

    cases :
        ((a ≡ true) × ((m t).0 ≡ some tt) × (options_set (m t).1 ≡ f (options_set t)))
          ⊎ ((a ≡ false) × ((m t).0 ≡ none) × (has_exited (m t).1 ≡ true))
        → ((b ≡ true)
            × ((n (m t).1).0 ≡ some tt)
            × (options_set (n (m t).1).1 ≡ g (options_set (m t).1)))
          ⊎ ((b ≡ false) × ((n (m t).1).0 ≡ none) × (has_exited (n (m t).1).1 ≡ true))
        → Left (g (f (options_set t)))
    cases (inr (e, o, x)) r = rw (then_none m n t o) (inr (rw e refl, refl, x))
    cases (inl (e, o, x)) (inl (e', o', x')) =
        rw (then_some m n t o) (inl (rw (e, e') refl, o', x' ∙ ap g x))
    cases (inl (e, o, x)) (inr (e', o', x')) =
        rw (then_some m n t o) (inr (rw (e, e') refl, o', x'))

module _ (net : Net) where
  Does-checked :
      (call : ℤ → Call) (r : ℤ) (f : Options → Options)
      → ((t : List Call) → options_set (call r ∷ t) ≡ f (options_set t))
      → Does (checked call r) (not (is_negative r)) f
  unfolding bail_if
  Does-checked call r f h t = elim (Bool-cases (is_negative r)) [
    | inl e ↦ rw e (inr (refl, refl, refl))
    | inr e ↦ rw e (inl (refl, refl, h t))
  ]

  Does-set_if :
      (wanted : ℕ) (opt : SockOpt) (val : ℕ)
      → Does (set_if net wanted opt val) (accepts net wanted opt val) (option_if wanted opt val)
  unfolding set_if
  Does-set_if wanted opt val t = elim (Bool-cases (wanted == 0)) [
    | inl e ↦ rw e (inl (refl, refl, refl))
    | inr e ↦ rw e (
        Does-checked (setsockopt opt val) (net.setsockopt_result opt val) (λ os. (opt, val) ∷ os)
          (λ t. refl) t)
  ]

  Does-set_device :
      (flags : ℕ)
      → Does (set_device net flags) (not (is_bail (configure flags net.hwtstamp_result))) (λ os. os)
  unfolding set_device bail_if
  Does-set_device flags t = cases (configure flags net.hwtstamp_result) refl
    where
      cases :
          (o : Outcome)
          → configure flags net.hwtstamp_result ≡ o
          → ((not (is_bail (configure flags net.hwtstamp_result)) ≡ true)
              × ((set_device net flags t).0 ≡ some tt)
              × (options_set (set_device net flags t).1 ≡ options_set t))
            ⊎ ((not (is_bail (configure flags net.hwtstamp_result)) ≡ false)
                × ((set_device net flags t).0 ≡ none)
                × (has_exited (set_device net flags t).1 ≡ true))
      cases bail e = rw (e, set_device) (inr (refl, refl, refl))
      cases (not_possible c) e = rw (e, set_device) (inl (refl, refl, refl))
      cases (proceed c d) e = rw (e, set_device) (inl (refl, refl, refl))

  Does-show_options : (flags : ℕ) → Does (show_options net flags) true (λ os. os)
  unfolding show_options show_option
  Does-show_options flags t =
      elim (Bool-cases (is_negative (net.getsockopt_result opt_timestamping))) [
        | inl e ↦ rw e (inl (refl, refl, refl))
        | inr e ↦ elim (Bool-cases (net.option_value opt_timestamping == flags)) [
          | inl h ↦ rw (e, h) (inl (refl, refl, refl))
          | inr h ↦ rw (e, h) (inl (refl, refl, refl))
        ]
      ]

  -- main of the test program gets to its loop exactly when the socket, the interface index, the
  -- request for hardware time stamps as configure takes it, the binding, and each socket option
  -- that the arguments ask for are granted. It has then set exactly those options, SO_TIMESTAMP
  -- first and SO_TIMESTAMPING, with the flags as value, last. Otherwise its last act is to exit.
  pub setup-Ends :
      (s : Settings)
      → let r = setup net s [] in
        ((is_ready net s ≡ true) × (r.0 ≡ some tt) × (options_set r.1 ≡ wanted_options s))
        ⊎ ((is_ready net s ≡ false) × (r.0 ≡ none) × (has_exited r.1 ≡ true))
  unfolding setup
  setup-Ends s =
      let a1 = not (is_negative net.socket_result) in
      let a2 = not (is_negative net.index_result) in
      let a3 = not (is_bail (configure s.flags net.hwtstamp_result)) in
      let a4 = not (is_negative net.bind_result) in
      let a5 = accepts net s.timestamp opt_timestamp 1 in
      let a6 = accepts net s.timestampns opt_timestampns 1 in
      let a7 = accepts net s.flags opt_timestamping s.flags in
      let same = λ (os : Options). os in
      let set1 = option_if s.timestamp opt_timestamp 1 in
      let set2 = option_if s.timestampns opt_timestampns 1 in
      let set3 = option_if s.flags opt_timestamping s.flags in
      let step1 = Does-checked socket net.socket_result same (λ t. refl) in
      let step2 = Does-checked get_index net.index_result same (λ t. refl) in
      let step4 = Does-checked bind net.bind_result same (λ t. refl) in
      let step5 = Does-set_if s.timestamp opt_timestamp 1 in
      let step6 = Does-set_if s.timestampns opt_timestampns 1 in
      let step7 = Does-set_if s.flags opt_timestamping s.flags in
      let two = Does-then _ _ a1 a2 same same step1 step2 in
      let three = Does-then _ _ (a1 && a2) a3 same same two (Does-set_device s.flags) in
      let four = Does-then _ _ (a1 && a2 && a3) a4 same same three step4 in
      let five = Does-then _ _ (a1 && a2 && a3 && a4) a5 same set1 four step5 in
      let six = Does-then _ _ (a1 && a2 && a3 && a4 && a5) a6 set1 set2 five step6 in
      let all = a1 && a2 && a3 && a4 && a5 && a6 && a7 in
      let seven =
        Does-then _ _ (a1 && a2 && a3 && a4 && a5 && a6) a7 (λ os. set2 (set1 os)) set3 six step7 in
      let eight =
        Does-then _ _ all true (λ os. set3 (set2 (set1 os))) same seven
          (Does-show_options s.flags) in
      elim (eight []) [
        | inl (e, o, x) ↦ inl (and_true all ∙ e, o, x)
        | inr (e, o, x) ↦ inr (and_true all ∙ e, o, x)
      ]
