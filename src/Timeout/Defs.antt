-- ===== src/Timeout/Defs.antt =====
-- The counters: which instance owns one, and reading, setting and testing it.
use ppsi.Ds.{Globals, Rand, Timer, set_inst, to_bmc, to_count, to_gm_by_bmca, to_prot_state}
use ppsi.Prelude.{
  Bool, eqb_ℤ, false, if◌then◌else◌, ltb, negsuc, of_word, pos, suc, true, update, zero, ℕ, ℤ, ◌%◌,
  ◌+◌, ◌-◌, ◌==◌, ◌^◌,
}
use ppsi.Timeout.Clock.{calc_timeout, time_after, time_after_eq, time_before, ulong_mod}

-- TIMEOUT_DISABLE_VALUE
abbrev pub timeout_disable_value : ℤ
timeout_disable_value = negsuc 0

-- TMO_CF_INSTANCE_DEPENDENT of timeOutConfigs
abbrev pub is_instance_dependent : ℕ → Bool
is_instance_dependent index =
    if index == to_bmc then false else if index == to_gm_by_bmca then false else true

-- TMO_CF_ALLOW_COMMON_SET of timeOutConfigs
abbrev pub is_common_set : ℕ → Bool
is_common_set index = if index == to_bmc then false else ltb index to_prot_state

-- The instance whose array __pp_get_counter reads.
abbrev pub owner : ℕ → ℕ → ℕ
owner ppi index = if is_instance_dependent index then ppi else 0

unfoldable pub pp_get_counter : Globals → ℕ → ℕ → Timer
pp_get_counter g ppi index = (g.inst (owner ppi index)).tmo_cfg index

-- `*cnt = t` for the counter of __pp_get_counter
unfoldable pub set_counter : Globals → ℕ → ℕ → Timer → Globals
set_counter g ppi index t =
    let p = g.inst (owner ppi index) in
    set_inst g (owner ppi index) (record p { tmo_cfg = update p.tmo_cfg index t })

-- The loop of pp_timeout_disable_all over the indexes below `n`.
unfoldable pub disable_loop : ℕ → (ℕ → Timer) → ℕ → Timer
disable_loop zero cfg = cfg
disable_loop (suc n) cfg =
    disable_loop n
      (update cfg n (record (cfg n) { init_value_ms = timeout_disable_value; tmo = 0 }))

-- It writes the instance's own array, for global counters too.
unfoldable pub pp_timeout_disable_all : Globals → ℕ → Globals
pp_timeout_disable_all g ppi =
    let p = g.inst ppi in set_inst g ppi (record p { tmo_cfg = disable_loop to_count p.tmo_cfg })

-- `which_rand` goes to the owner's counter and the disabling to the instance's own.
unfoldable pub pp_timeout_get_timer : Globals → ℕ → ℕ → Rand → Globals
pp_timeout_get_timer g ppi index rand =
    let g' = set_counter g ppi index (record (pp_get_counter g ppi index) { which_rand = rand }) in
    let p = g'.inst ppi in
    set_inst g' ppi (record p {
      tmo_cfg =
          update p.tmo_cfg index
            (record (p.tmo_cfg index) { init_value_ms = timeout_disable_value });
    })

unfoldable pub pp_timeout_get : Globals → ℕ → ℕ → ℤ
pp_timeout_get g ppi index = (pp_get_counter g ppi index).init_value_ms

-- __pp_timeout_set
unfoldable pub pp_timeout_set_tmo : Globals → ℕ → ℕ → ℤ → Globals
pp_timeout_set_tmo g ppi index millisec =
    set_counter g ppi index (record (pp_get_counter g ppi index) { tmo = calc_timeout g millisec })

-- pp_timeout_set_rename, of which pp_timeout_set is another name
unfoldable pub pp_timeout_set : Globals → ℕ → ℕ → ℤ → Globals
pp_timeout_set g ppi index millisec =
    pp_timeout_set_tmo
      (set_counter g ppi index (record (pp_get_counter g ppi index) { init_value_ms = millisec }))
      ppi index millisec

unfoldable pub pp_timeout_is_disabled : Globals → ℕ → ℕ → Bool
pp_timeout_is_disabled g ppi index = eqb_ℤ (pp_timeout_get g ppi index) timeout_disable_value

unfoldable pub pp_timeout_disable : Globals → ℕ → ℕ → Globals
pp_timeout_disable g ppi index = pp_timeout_set g ppi index timeout_disable_value

-- Has the counter expired?
unfoldable pub pp_timeout : Globals → ℕ → ℕ → Bool
pp_timeout g ppi index =
    let t = pp_get_counter g ppi index in
    if eqb_ℤ t.init_value_ms timeout_disable_value
    then false
    else time_after_eq (calc_timeout g (pos 0)) t.tmo

-- `tmo - now` as an int
unfoldable pub remaining : ℕ → ℕ → ℤ
remaining tmo now = of_word 32 ((tmo + ulong_mod - now) % ulong_mod % 2 ^ 32)

unfoldable pub pp_next_delay_1 : Globals → ℕ → ℕ → ℤ
pp_next_delay_1 g ppi i1 =
    let tmo = (pp_get_counter g ppi i1).tmo in
    let now = calc_timeout g (pos 0) in if time_before tmo now then pos 0 else remaining tmo now

-- The earlier of two times.
unfoldable pub earlier : ℕ → ℕ → ℕ
earlier a b = if time_after a b then b else a

-- The end of pp_next_delay_2 and pp_next_delay_3.
unfoldable pub delay_until : ℕ → ℕ → ℤ
delay_until tmo_min now = if time_before now tmo_min then remaining tmo_min now else pos 0

unfoldable pub pp_next_delay_2 : Globals → ℕ → ℕ → ℕ → ℤ
pp_next_delay_2 g ppi i1 i2 =
    delay_until (earlier (pp_get_counter g ppi i1).tmo (pp_get_counter g ppi i2).tmo)
      (calc_timeout g (pos 0))

unfoldable pub pp_next_delay_3 : Globals → ℕ → ℕ → ℕ → ℕ → ℤ
pp_next_delay_3 g ppi i1 i2 i3 =
    delay_until
      (earlier (earlier (pp_get_counter g ppi i1).tmo (pp_get_counter g ppi i2).tmo)
        (pp_get_counter g ppi i3).tmo)
      (calc_timeout g (pos 0))
