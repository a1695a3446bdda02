-- ===== src/States/Waiting.antt =====
-- A port that stays faulty, and when it leaves (proto-standard/state-faulty.c).
use mathlib.Core.Path.{ap₂, subst}
use ppsi.Ds.{Globals, Instance, State, Timer, set_inst, to_in_state}
use ppsi.Prelude.{
  Bool, List, [], ap, arith, false, if◌then◌else◌, leb, pos, refl, sym, true, update, update_self,
  ℕ, ℤ, ◌%◌, ◌+◌, ◌<◌, ◌^◌, ◌∙◌, ◌∷◌, ◌≡◌,
}
use ppsi.States.Common.{
  is_stuck_faulty, pp_faulty, set_next_delay, set_next_state, stay_faulty, timeout_faulty_state_ms,
}
use ppsi.Timeout.Clock.{calc_timeout, ulong_mod}
use ppsi.Timeout.Defs.{
  pp_get_counter, pp_next_delay_1, pp_timeout, pp_timeout_disable, pp_timeout_set,
  pp_timeout_set_tmo, set_counter,
}
use ppsi.Timeout.Expiry.{advance, counter-advance, pp_timeout-set, total}

-- The state machine's step into a later run: the state is not new any more, and next_state starts as it.
abbrev pub later : ℕ → Globals → ℕ → Globals
later d g ppi =
    let g1 = advance d g in
    set_inst g1 ppi (record (g1.inst ppi) { is_new_state = false; next_state = State.faulty })

keeps_counter :
    (g : Globals) (ppi : ℕ) (p : Instance)
    → p.tmo_cfg ≡ (g.inst ppi).tmo_cfg
    → pp_get_counter (set_inst g ppi p) ppi to_in_state ≡ pp_get_counter g ppi to_in_state
unfolding pp_get_counter
keeps_counter g ppi p e =
    ap (λ (c : ℕ → Timer). c to_in_state)
      (ap (λ (q : Instance). q.tmo_cfg) (update_self g.inst ppi p) ∙ e)

-- The port, just after it became faulty
abbrev armed : Globals → ℕ → Globals
armed g ppi = pp_timeout_set g ppi to_in_state (pos timeout_faulty_state_ms)

faulty_entered :
    (g : Globals) (ppi : ℕ)
    → is_stuck_faulty g ppi ≡ false
    → (g.inst ppi).is_new_state ≡ true
    → pp_faulty g ppi ≡ stay_faulty (armed g ppi) ppi
unfolding pp_faulty
faulty_entered g ppi free fresh = rw free (rw fresh refl)

pub next_state_self :
    (g : Globals) (ppi : ℕ) (s : State) → ((set_next_state g ppi s).inst ppi).next_state ≡ s
next_state_self g ppi s =
    ap (λ (p : Instance). p.next_state)
      (update_self g.inst ppi (record (g.inst ppi) { next_state = s }))

-- A field of a test's result, by the field of each branch
pub read_if :
    {A B : Type 0} (b : Bool) (f : A → B) {x y : A} {u v : B}
    → f x ≡ u
    → f y ≡ v
    → f (if b then x else y) ≡ (if b then u else v)
read_if true f p q = p
read_if false f p q = q

next_delay_keeps :
    (g : Globals) (ppi : ℕ) (d : ℤ)
    → ((set_next_delay g ppi d).inst ppi).next_state ≡ (g.inst ppi).next_state
next_delay_keeps g ppi d =
    ap (λ (p : Instance). p.next_state)
      (update_self g.inst ppi (record (g.inst ppi) { next_delay = d }))

-- A run of the state in which it is not new
faulty_again :
    (g : Globals) (ppi : ℕ)
    → is_stuck_faulty g ppi ≡ false
    → (g.inst ppi).is_new_state ≡ false
    → ((pp_faulty g ppi).inst ppi).next_state
      ≡ (if pp_timeout g ppi to_in_state then State.initializing else (g.inst ppi).next_state)
unfolding pp_faulty stay_faulty
faulty_again g ppi free old =
    let leave = set_next_state (pp_timeout_disable g ppi to_in_state) ppi State.initializing in
    let stay = if pp_timeout g ppi to_in_state then leave else stay_faulty g ppi in
    rw free (
      ap (λ b. ((if b then stay_faulty (armed g ppi) ppi else stay).inst ppi).next_state) old
      ∙ read_if (pp_timeout g ppi to_in_state) (λ (h : Globals). (h.inst ppi).next_state)
          (next_state_self (pp_timeout_disable g ppi to_in_state) ppi State.initializing)
          (next_delay_keeps g ppi (pp_next_delay_1 g ppi to_in_state)))

was_old :
    (g : Globals) (ppi : ℕ)
    → (update g.inst ppi
        (record (g.inst ppi) { is_new_state = false; next_state = State.faulty })
        ppi).is_new_state
      ≡ false
was_old g ppi =
    ap (λ (p : Instance). p.is_new_state)
      (update_self g.inst ppi
        (record (g.inst ppi) { is_new_state = false; next_state = State.faulty }))

was_faulty :
    (g : Globals) (ppi : ℕ)
    → (update g.inst ppi
        (record (g.inst ppi) { is_new_state = false; next_state = State.faulty })
        ppi).next_state
      ≡ State.faulty
was_faulty g ppi =
    ap (λ (p : Instance). p.next_state)
      (update_self g.inst ppi
        (record (g.inst ppi) { is_new_state = false; next_state = State.faulty }))

free_lem :
    (g : Globals) (ppi : ℕ)
    → g.default_ds.external_port_configuration_enabled ≡ false
    → is_stuck_faulty g ppi ≡ false
unfolding is_stuck_faulty
free_lem g ppi h = rw h refl

-- `e` milliseconds after the timer was started on `g`, with nothing else done to it
record Waits (g : Globals) (ppi e : ℕ) (h : Globals) : Type 0 where
  clock : h.now ≡ (g.now + e) % ulong_mod
  counter : pp_get_counter h ppi to_in_state ≡ pp_get_counter g ppi to_in_state
  plain : h.default_ds.external_port_configuration_enabled ≡ false

same_timeout :
    (g h : Globals) (ppi : ℕ)
    → h.now ≡ g.now
    → pp_get_counter h ppi to_in_state ≡ pp_get_counter g ppi to_in_state
    → pp_timeout h ppi to_in_state ≡ pp_timeout g ppi to_in_state
unfolding pp_timeout calc_timeout
same_timeout g h ppi now counter = rw counter (rw now refl)

set_now : (g : Globals) (ppi : ℕ) → (armed g ppi).now ≡ g.now
unfolding pp_timeout_set pp_timeout_set_tmo set_counter
set_now g ppi = refl

set_plain :
    (g : Globals) (ppi : ℕ)
    → (armed g ppi).default_ds.external_port_configuration_enabled
      ≡ g.default_ds.external_port_configuration_enabled
unfolding pp_timeout_set pp_timeout_set_tmo set_counter
set_plain g ppi = refl

Waits-timeout :
    (g h : Globals) (ppi e : ℕ)
    → g.now < ulong_mod
    → e < 2 ^ 62
    → Waits (armed g ppi) ppi e h
    → pp_timeout h ppi to_in_state ≡ leb timeout_faulty_state_ms e
Waits-timeout g h ppi e hn he w =
    same_timeout (advance e (armed g ppi)) h ppi w.clock
      (w.counter ∙ sym (counter-advance (armed g ppi) ppi to_in_state e))
    ∙ pp_timeout-set g ppi to_in_state timeout_faulty_state_ms e hn (omega arith) he

later-Waits : (g h : Globals) (ppi e d : ℕ) → Waits g ppi e h → Waits g ppi (e + d) (later d h ppi)
later-Waits g h ppi e d w = record {
  clock = rw w.clock (omega arith);
  counter =
      keeps_counter (advance d h) ppi
        (record (h.inst ppi) { is_new_state = false; next_state = State.faulty }) refl
      ∙ counter-advance h ppi to_in_state d
      ∙ w.counter;
  plain = w.plain;
}

stay-Waits : (g h : Globals) (ppi e : ℕ) → Waits g ppi e h → Waits g ppi e (stay_faulty h ppi)
unfolding stay_faulty
stay-Waits g h ppi e w = record {
  clock = w.clock;
  counter =
      keeps_counter h ppi (record (h.inst ppi) { next_delay = pp_next_delay_1 h ppi to_in_state })
        refl
      ∙ w.counter;
  plain = w.plain;
}

stays_faulty :
    (g : Globals) (ppi : ℕ)
    → is_stuck_faulty g ppi ≡ false
    → (g.inst ppi).is_new_state ≡ false
    → pp_timeout g ppi to_in_state ≡ false
    → pp_faulty g ppi ≡ stay_faulty g ppi
unfolding pp_faulty
stays_faulty g ppi free old early = rw free (rw old (rw early refl))

-- The later runs of the state, each so many milliseconds after the one before it
unfoldable pub runs_faulty : ℕ → List ℕ → Globals → Globals
runs_faulty ppi [] g = g
runs_faulty ppi (d ∷ ds) g = runs_faulty ppi ds (pp_faulty (later d g ppi) ppi)

runs_faulty-Waits :
    (g : Globals) (ppi : ℕ) (ds : List ℕ) (e : ℕ) (h : Globals)
    → g.now < ulong_mod
    → e + total ds < timeout_faulty_state_ms
    → Waits (armed g ppi) ppi e h
    → Waits (armed g ppi) ppi (e + total ds) (runs_faulty ppi ds h)
unfolding runs_faulty
runs_faulty-Waits g ppi [] e h hn early w = subst (λ k. Waits (armed g ppi) ppi k h) (omega arith) w
runs_faulty-Waits g ppi (d ∷ ds) e h hn early w =
    let h1 = later d h ppi in
    let w1 : Waits (armed g ppi) ppi (e + d) h1 = later-Waits (armed g ppi) h ppi e d w in
    let not_yet : pp_timeout h1 ppi to_in_state ≡ false =
      Waits-timeout g h1 ppi (e + d) hn (omega arith) w1 ∙ ground arith in
    let unmoved =
      stays_faulty h1 ppi (free_lem h1 ppi w1.plain) (was_old (advance d h) ppi) not_yet in
    subst (λ k. Waits (armed g ppi) ppi k (runs_faulty ppi (d ∷ ds) h)) (omega arith)
      (runs_faulty-Waits g ppi ds (e + d) (pp_faulty h1 ppi) hn (omega arith) (
        subst (Waits (armed g ppi) ppi (e + d)) (sym unmoved)
          (stay-Waits (armed g ppi) h1 ppi (e + d) w1)))

entered-Waits :
    (g : Globals) (ppi : ℕ)
    → g.default_ds.external_port_configuration_enabled ≡ false
    → (g.inst ppi).is_new_state ≡ true
    → g.now < ulong_mod
    → Waits (armed g ppi) ppi 0 (pp_faulty g ppi)
entered-Waits g ppi plain fresh hn =
    let now = set_now g ppi in
    subst (Waits (armed g ppi) ppi 0) (sym (faulty_entered g ppi (free_lem g ppi plain) fresh)) (
      stay-Waits (armed g ppi) (armed g ppi) ppi 0
        (record { clock = omega (arith, now); counter = refl; plain = set_plain g ppi ∙ plain }))

-- Without external port configuration, a port that becomes faulty and whose action is then run any number
-- of times, at any moments, stays faulty in every run that is less than 60 seconds after it became
-- faulty, and leaves for initializing in the first run that is not, wherever the clock stood.
pub pp_faulty-leaves :
    (g : Globals) (ppi : ℕ) (ds : List ℕ) (d : ℕ)
    → g.default_ds.external_port_configuration_enabled ≡ false
    → (g.inst ppi).is_new_state ≡ true
    → g.now < ulong_mod
    → total ds < timeout_faulty_state_ms
    → d < 2 ^ 61
    → ((pp_faulty (later d (runs_faulty ppi ds (pp_faulty g ppi)) ppi) ppi).inst ppi).next_state
      ≡ (if leb timeout_faulty_state_ms (total ds + d) then State.initializing else State.faulty)
pp_faulty-leaves g ppi ds d plain fresh hn early hd =
    let h = runs_faulty ppi ds (pp_faulty g ppi) in
    let w : Waits (armed g ppi) ppi (0 + total ds) h =
      runs_faulty-Waits g ppi ds 0 (pp_faulty g ppi) hn (omega arith)
        (entered-Waits g ppi plain fresh hn) in
    let w1 : Waits (armed g ppi) ppi (0 + total ds + d) (later d h ppi) =
      later-Waits (armed g ppi) h ppi (0 + total ds) d w in
    let sum : 0 + total ds + d ≡ total ds + d = omega arith in
    faulty_again (later d h ppi) ppi (free_lem (later d h ppi) ppi w1.plain)
      (was_old (advance d h) ppi)
    ∙ ap₂ (λ b s. if b then State.initializing else s)
        (Waits-timeout g (later d h ppi) ppi (0 + total ds + d) hn (omega arith) w1
          ∙ ap (leb timeout_faulty_state_ms) sum)
        (was_faulty (advance d h) ppi)
