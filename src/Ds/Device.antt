-- ===== src/Ds/Device.antt =====
-- struct pp_globals with its instances and data sets, what the static variables hold, the time of day
-- that the architecture's clock shows, and the calls that leave the program, in order.
use ppsi.Prelude.{ℕ, ℤ, Bool, Option, List, ◌∷◌, update}
use ppsi.Ds.Port.{FrgnMaster, Instance}
use ppsi.Ds.Enums.{State}
use ppsi.Ds.Options.{RtOpts, DefaultDs, CurrentDs, ParentDs, TimePropertiesDs}

-- A call of a time operation that changes the world outside the program. `clear_servo_delays` is the
-- clearing of the servo's meanDelay and offsetFromMaster, which belong to another component.
pub data Output : Type 0 where
  set_tai_offset : Output
  set_utc_offset : ℤ → Bool → Bool → Output
  enable_timing_output : Bool → Output
  clear_servo_delays : Output
  servo_init : Output
  ext_state_changed : Output

-- pp_timing_mode_state_t
pub data TimingMode : Type 0 where
  tm_unlocked tm_holdover tm_locked : TimingMode

-- `last_timing_mode_state` is clockDeg_lastTimingModeState, with `none` for -1.
pub record Globals : Type 0 where
  pub inst : ℕ → Instance
  pub rt_opts : RtOpts
  pub default_ds : DefaultDs
  pub current_ds : CurrentDs
  pub parent_ds : ParentDs
  pub time_properties_ds : TimePropertiesDs
  pub ebest_idx : Option ℕ
  pub ebest_updated : Bool
  pub seed : ℕ
  pub now : ℕ
  pub last_timing_mode_state : ℕ → Option TimingMode
  pub outputs : List Output

-- INST(ppg, i)->… = …
abbrev pub set_inst : Globals → ℕ → Instance → Globals
set_inst g i p = record g { inst = update g.inst i p }

abbrev pub emit : Globals → Output → Globals
emit g o = record g { outputs = o ∷ g.outputs }

-- The time operations that an architecture provides, as far as they answer a question: `none` is a
-- non-zero result. What they change outside is an `Output`.
pub record TimeOps : Type 0 where
  pub get_utc_time : Globals → Option (ℕ × ℕ × ℕ)
  pub get_utc_offset : Globals → Option (ℤ × Bool × Bool)
  pub get_gm_lock_state : Globals → Option TimingMode

-- The hooks of a protocol extension that the best master clock algorithm calls. A hook that is not
-- there leaves the globals as they are, and `state_decision` is then `none`.
pub record BmcHooks : Type 0 where
  pub bmca_s1 : Globals → ℕ → FrgnMaster → Globals
  pub state_decision : Option (Globals → ℕ → State → Globals × State)
