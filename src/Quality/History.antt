-- ===== src/Quality/History.antt =====
-- What an update of the clock quality does not bring back, and what the grandmaster's data sets lose of it.
use ppsi.Bmc.DataSets.{bmc_m1, m1_arb_offset, m1_parent, m1_ptp_offset, m1_source}
use ppsi.Ds.{ClockQuality, Globals, RtOpts, TimeOps, TimePropertiesDs, TimingMode}
use ppsi.Prelude.{
  Bool, Option, [], ap, arith, false, if_either, if◌then◌else◌, is_set, none, pos, refl, some,
  to_word, true, ℕ, ℤ, ◌<◌, ◌∙◌, ◌∷◌, ◌≡◌, ◌≤◌,
}
use ppsi.Quality.Follow.{run_updates}
use ppsi.Quality.Tables.{clock_degradation}
use ppsi.Quality.Update.{
  bmc_apply_configured_device_attributes, bmc_update_clock_quality, degrade, degrade_properties,
  degrade_quality, enter_mode, find_degradation, follow_mode, is_last, update_by,
}
use ppsi.Quality.Worst.{started}

-- For a grandmaster of class 6 with its configured attributes applied, whose configured accuracy is 0x21
-- (100 ns, the default) or worse, but known: a change of the PLL to holdover keeps the configured
-- accuracy, but when the PLL was unlocked before, the accuracy stays unknown (0xfe).
pub run_updates-accuracy :
    (ops : TimeOps) (g : Globals) (a : ℕ)
    → g.rt_opts.clock_quality_clock_class ≡ 6
    → g.last_timing_mode_state 0 ≡ none
    → g.rt_opts.clock_quality_clock_accuracy ≡ pos a
    → 0x21 ≤ a
    → a < 0xfe
    → ((run_updates ops (some TimingMode.tm_holdover ∷ []) (started g)
          ).default_ds.clock_quality.clock_accuracy
        ≡ a)
      × ((run_updates ops
            (some TimingMode.tm_unlocked ∷ some TimingMode.tm_holdover ∷ [])
            (started g)).default_ds.clock_quality.clock_accuracy
          ≡ 0xfe)
unfolding run_updates bmc_update_clock_quality update_by follow_mode enter_mode degrade
    degrade_quality find_degradation clock_degradation bmc_apply_configured_device_attributes
    is_last to_word
run_updates-accuracy ops g a class fresh accuracy low high = (
  rw class (rw fresh (rw accuracy (ground arith))),
  rw class (rw fresh (rw accuracy (ground arith))),
)

m1_ptp_offset-rt_opts :
    (g : Globals) (utc : Option (ℤ × Bool × Bool)) → (m1_ptp_offset g utc).rt_opts ≡ g.rt_opts
unfolding m1_ptp_offset
m1_ptp_offset-rt_opts g utc = if_either _ (λ (h : Globals). h.rt_opts ≡ g.rt_opts) refl refl

m1_offset-rt_opts :
    (ops : TimeOps) (g : Globals)
    → (if g.time_properties_ds.ptp_timescale
        then m1_ptp_offset g (ops.get_utc_offset g)
        else m1_arb_offset g).rt_opts
      ≡ g.rt_opts
unfolding m1_arb_offset
m1_offset-rt_opts ops g =
    if_either g.time_properties_ds.ptp_timescale (λ (h : Globals). h.rt_opts ≡ g.rt_opts)
      (m1_ptp_offset-rt_opts g (ops.get_utc_offset g)) refl

-- A grandmaster of class 6 that is configured with a better time source than its oscillator, and as
-- traceable, and whose PLL has not been heard of yet
pub record IsTraceable (g : Globals) (source : ℕ) : Type 0 where
  pub class_is : g.rt_opts.clock_quality_clock_class ≡ 6
  pub fresh : g.last_timing_mode_state 0 ≡ none
  pub source_is : g.rt_opts.time_source ≡ pos source
  pub better : source < 0xa0
  pub frequency_is : is_set g.rt_opts.frequency_traceable ≡ true
  pub time_is : is_set g.rt_opts.time_traceable ≡ true

-- The globals when the PLL has been found in the mode
abbrev pub degraded : TimeOps → TimingMode → Globals → Globals
degraded ops mode g = run_updates ops (some mode ∷ []) (started g)

-- The time source and the two traceability flags
abbrev pub Tells : TimePropertiesDs → ℕ → Bool → Type 0
Tells prop source traceable =
    (prop.time_source ≡ source)
    × (prop.frequency_traceable ≡ traceable)
    × (prop.time_traceable ≡ traceable)

degraded-Tells :
    (ops : TimeOps) (g : Globals) (source : ℕ)
    → IsTraceable g source
    → Tells (degraded ops TimingMode.tm_unlocked g).time_properties_ds 0xa0 false
      × ((degraded ops TimingMode.tm_unlocked g).default_ds.clock_quality.clock_class ≡ 187)
      × ((degraded ops TimingMode.tm_unlocked g).rt_opts ≡ g.rt_opts)
      × Tells (degraded ops TimingMode.tm_holdover g).time_properties_ds 0xa0 true
      × ((degraded ops TimingMode.tm_holdover g).default_ds.clock_quality.clock_class ≡ 7)
      × ((degraded ops TimingMode.tm_holdover g).rt_opts ≡ g.rt_opts)
unfolding run_updates bmc_update_clock_quality update_by follow_mode enter_mode degrade
    degrade_quality degrade_properties find_degradation clock_degradation
    bmc_apply_configured_device_attributes is_last to_word
degraded-Tells ops g source is =
    let low = is.better in
    rw is.class_is
      (rw is.fresh (rw is.source_is (rw is.frequency_is (rw is.time_is (ground (arith, low))))))

m1-Tells :
    (ops : TimeOps) (g : Globals) (source : ℕ)
    → g.rt_opts.time_source ≡ pos source
    → source < 0xa0
    → is_set g.rt_opts.frequency_traceable ≡ true
    → is_set g.rt_opts.time_traceable ≡ true
    → Tells (bmc_m1 ops g).time_properties_ds source true
unfolding bmc_m1 m1_source m1_parent to_word
m1-Tells ops g source is low f t =
    let same = m1_offset-rt_opts ops (m1_parent g) in
    (
      ap (λ (o : RtOpts). to_word 8 o.time_source) same ∙ rw is (omega arith),
      ap (λ (o : RtOpts). is_set o.frequency_traceable) same ∙ f,
      ap (λ (o : RtOpts). is_set o.time_traceable) same ∙ t,
    )

m1-class :
    (ops : TimeOps) (g : Globals)
    → (bmc_m1 ops g).parent_ds.grandmaster_clock_quality ≡ g.default_ds.clock_quality
unfolding bmc_m1 m1_source m1_parent m1_ptp_offset m1_arb_offset
m1-class ops g =
    if_either g.time_properties_ds.ptp_timescale
      (λ (h : Globals). h.parent_ds.grandmaster_clock_quality ≡ g.default_ds.clock_quality)
      (if_either _
        (λ (h : Globals). h.parent_ds.grandmaster_clock_quality ≡ g.default_ds.clock_quality) refl
        refl)
      refl

-- The data set updates tell the configured source and traceability, and the class as it was degraded.
m1_after :
    (ops : TimeOps) (g h : Globals) (source class : ℕ)
    → IsTraceable g source
    → h.rt_opts ≡ g.rt_opts
    → h.default_ds.clock_quality.clock_class ≡ class
    → Tells (bmc_m1 ops h).time_properties_ds source true
      × ((bmc_m1 ops h).parent_ds.grandmaster_clock_quality.clock_class ≡ class)
m1_after ops g h source class is same e = (
  m1-Tells ops h source (ap (λ (o : RtOpts). o.time_source) same ∙ is.source_is) is.better
      (ap (λ (o : RtOpts). is_set o.frequency_traceable) same ∙ is.frequency_is)
      (ap (λ (o : RtOpts). is_set o.time_traceable) same ∙ is.time_is),
  ap (λ (q : ClockQuality). q.clock_class) (m1-class ops h) ∙ e,
)

-- A grandmaster of class 6 that is configured with a better time source than its oscillator, and as
-- traceable, degrades to the oscillator when its PLL is lost, and to untraceable when it is unlocked. The
-- data set updates of a grandmaster (bmc_m1) then announce the configured source as traceable again,
-- beside the degraded class (7 in holdover, 187 unlocked), also when the UTC offset is not known.
pub bmc_m1-undoes_degradation :
    (ops : TimeOps) (g : Globals) (source : ℕ)
    → IsTraceable g source
    → (Tells (degraded ops TimingMode.tm_unlocked g).time_properties_ds 0xa0 false
        × Tells (bmc_m1 ops (degraded ops TimingMode.tm_unlocked g)).time_properties_ds source true
        × ((bmc_m1 ops (degraded ops TimingMode.tm_unlocked g)
              ).parent_ds.grandmaster_clock_quality.clock_class
            ≡ 187))
      × (Tells (degraded ops TimingMode.tm_holdover g).time_properties_ds 0xa0 true
          × Tells
              (bmc_m1 ops (degraded ops TimingMode.tm_holdover g)).time_properties_ds
              source
              true
          × ((bmc_m1 ops (degraded ops TimingMode.tm_holdover g)
                ).parent_ds.grandmaster_clock_quality.clock_class
              ≡ 7))
bmc_m1-undoes_degradation ops g source is =
    let (unlocked, class_u, opts_u, holdover, class_h, opts_h) = degraded-Tells ops g source is in
    let (tells_u, told_u) =
      m1_after ops g (degraded ops TimingMode.tm_unlocked g) source 187 is opts_u class_u in
    let (tells_h, told_h) =
      m1_after ops g (degraded ops TimingMode.tm_holdover g) source 7 is opts_h class_h in
    ((unlocked, tells_u, told_u), (holdover, tells_h, told_h))
