-- ===== src/Quality/Follow.antt =====
-- The announced clock class follows the PLL: the state machine that bmc_update_clock_quality implements,
-- whose state is the timing mode that was last known.
use mathlib.Core.Path.{subst}
use ppsi.Ds.{Globals, RtOpts, TimeOps, TimingMode}
use ppsi.Prelude.{
  List, Option, [], ap, arith, if_case, if_either, if◌then◌else◌, none, refl, some, sym, true, ℕ,
  ◌%◌, ◌==◌, ◌^◌, ◌∙◌, ◌∷◌, ◌≡◌,
}
use ppsi.Quality.Lookup.{find_degradation-by}
use ppsi.Quality.Tables.{ClockDegradation, clock_degradation}
use ppsi.Quality.Update.{
  bmc_apply_configured_device_attributes, bmc_update_clock_quality, degrade, degrade_quality,
  enter_mode, find_degradation, follow_mode, is_last, restore, update_by,
}

-- The class that the comment at the head of bmc_clock_quality.c gives for a configured class.
unfoldable pub announced_class : ℕ → Option TimingMode → ℕ
announced_class c none = c
announced_class c (some TimingMode.tm_locked) = c
announced_class c (some TimingMode.tm_holdover) = if c == 6 then 7 else if c == 13 then 14 else c
announced_class c (some TimingMode.tm_unlocked) = if c == 6 then 187 else if c == 13 then 193 else c

-- The mode that is last known after some answers of get_GM_lock_state.
unfoldable pub known_mode : Option TimingMode → List (Option TimingMode) → Option TimingMode
known_mode s [] = s
known_mode s (none ∷ answers) = known_mode s answers
known_mode s (some mode ∷ answers) = known_mode (some mode) answers

abbrev pub answering : TimeOps → Option TimingMode → TimeOps
answering ops a = record ops { get_gm_lock_state = λ g. a }

-- An update for each answer
unfoldable pub run_updates : TimeOps → List (Option TimingMode) → Globals → Globals
run_updates ops [] g = g
run_updates ops (a ∷ answers) g =
    run_updates ops answers (bmc_update_clock_quality (answering ops a) g)

-- The globals stand for the abstract state `s`: row `i` remembers it and its class is announced.
abbrev pub Represents : ℕ → ℕ → Option TimingMode → Globals → Type 0
Represents c i s g =
    (g.rt_opts.clock_quality_clock_class ≡ c)
    × (g.last_timing_mode_state i ≡ s)
    × (g.default_ds.clock_quality.clock_class ≡ announced_class c s)

-- A row of the table agrees with the comment.
abbrev IsRowFor : ℕ → Option (ℕ × ClockDegradation) → Type 0
IsRowFor c none = c ≡ c
IsRowFor c (some (i, row)) =
    (row.holdover.clock_quality.clock_class ≡ announced_class c (some TimingMode.tm_holdover))
    × (row.unlocked.clock_quality.clock_class ≡ announced_class c (some TimingMode.tm_unlocked))
    × (c % 2 ^ 8 ≡ c)

find_degradation-IsRowFor : (c : ℕ) → IsRowFor c (find_degradation c 0 clock_degradation)
unfolding announced_class
find_degradation-IsRowFor c =
    find_degradation-by c (IsRowFor c) refl (λ e. (ground arith, ground arith, ground arith))
      (λ e. (ground arith, ground arith, ground arith))
      (λ e. (ground arith, ground arith, ground arith))
      (λ e. (ground arith, ground arith, ground arith))

-- What a change of mode does to the class and leaves alone
record Entered (c i : ℕ) (mode : TimingMode) (g h : Globals) : Type 0 where
  options : h.rt_opts ≡ g.rt_opts
  class_is : h.default_ds.clock_quality.clock_class ≡ announced_class c (some mode)

enter_mode-Entered :
    (c i : ℕ) (row : ClockDegradation) (mode : TimingMode) (g : Globals)
    → IsRowFor c (some (i, row))
    → g.rt_opts.clock_quality_clock_class ≡ c
    → Entered c i mode g (enter_mode row mode g)
unfolding enter_mode restore degrade degrade_quality bmc_apply_configured_device_attributes
    announced_class
enter_mode-Entered c i row TimingMode.tm_locked g (h, u, w) e =
    if_either row.enable_timing_output (Entered c i TimingMode.tm_locked g)
      (record { options = refl; class_is = rw e w }) (record { options = refl; class_is = rw e w })
enter_mode-Entered c i row TimingMode.tm_unlocked g (h, u, w) e = record {
  options = refl;
  class_is = u;
}
enter_mode-Entered c i row TimingMode.tm_holdover g (h, u, w) e = record {
  options = refl;
  class_is = h;
}

is_last-true :
    (last : Option TimingMode) (mode : TimingMode) → is_last last mode ≡ true → last ≡ some mode
unfolding is_last
is_last-true (some TimingMode.tm_locked) TimingMode.tm_locked h = refl
is_last-true (some TimingMode.tm_unlocked) TimingMode.tm_unlocked h = refl
is_last-true (some TimingMode.tm_holdover) TimingMode.tm_holdover h = refl
is_last-true last mode h = cc

follow_mode-Represents :
    (c i : ℕ) (row : ClockDegradation) (s : Option TimingMode) (mode : TimingMode) (g : Globals)
    → IsRowFor c (some (i, row))
    → Represents c i s g
    → Represents c i (some mode) (follow_mode i row g (some mode))
unfolding follow_mode
follow_mode-Represents c i row s mode g for_c (ec, es, ea) =
    if_case (is_last (g.last_timing_mode_state i) mode) (Represents c i (some mode))
      (λ t. (
        ec,
        is_last-true (g.last_timing_mode_state i) mode t,
        ea ∙ ap (announced_class c) (sym es ∙ is_last-true (g.last_timing_mode_state i) mode t),
      ))
      (λ _. (
        ap (λ (o : RtOpts). o.clock_quality_clock_class)
              (enter_mode-Entered c i row mode g for_c ec).options
            ∙ ec,
        ground arith,
        (enter_mode-Entered c i row mode g for_c ec).class_is,
      ))

abbrev next_mode : Option TimingMode → Option TimingMode → Option TimingMode
next_mode s none = s
next_mode s (some mode) = some mode

update_by-unanswered :
    (ops : TimeOps) (g : Globals) (found : Option (ℕ × ClockDegradation))
    → update_by (answering ops none) g found ≡ g
unfolding update_by follow_mode
update_by-unanswered ops g none = refl
update_by-unanswered ops g (some (i, row)) = refl

update-Represents :
    (ops : TimeOps) (c i : ℕ) (row : ClockDegradation) (s a : Option TimingMode) (g : Globals)
    → find_degradation c 0 clock_degradation ≡ some (i, row)
    → Represents c i s g
    → Represents c i (next_mode s a) (bmc_update_clock_quality (answering ops a) g)
unfolding bmc_update_clock_quality update_by
update-Represents ops c i row s none g found r =
    subst (Represents c i s)
      (sym (
        update_by-unanswered ops g
          (find_degradation g.rt_opts.clock_quality_clock_class 0 clock_degradation)))
      r
update-Represents ops c i row s (some mode) g found (ec, es, ea) =
    subst (λ o. Represents c i (some mode) (update_by (answering ops (some mode)) g o))
      (sym (ap (λ k. find_degradation k 0 clock_degradation) ec ∙ found))
      (follow_mode-Represents c i row s mode g
        (subst (IsRowFor c) found (find_degradation-IsRowFor c)) (ec, es, ea))

-- For a configured class that has a row in the table of degradations, any number of updates implement
-- the abstract machine: the announced class is the one that the comment gives for the timing mode that
-- was last known, whatever modes came before.
pub run_updates-Represents :
    (ops : TimeOps) (answers : List (Option TimingMode)) (c i : ℕ) (row : ClockDegradation)
    (s : Option TimingMode) (g : Globals)
    → find_degradation c 0 clock_degradation ≡ some (i, row)
    → Represents c i s g
    → Represents c i (known_mode s answers) (run_updates ops answers g)
unfolding run_updates known_mode
run_updates-Represents ops [] c i row s g found r = r
run_updates-Represents ops (none ∷ answers) c i row s g found r =
    run_updates-Represents ops answers c i row s (bmc_update_clock_quality (answering ops none) g)
      found (update-Represents ops c i row s none g found r)
run_updates-Represents ops (some mode ∷ answers) c i row s g found r =
    run_updates-Represents ops answers c i row (some mode)
      (bmc_update_clock_quality (answering ops (some mode)) g) found
      (update-Represents ops c i row s (some mode) g found r)
