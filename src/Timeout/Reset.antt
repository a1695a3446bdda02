-- ===== src/Timeout/Reset.antt =====
-- __pp_timeout_reset with its random generator, pp_timeout_setall and pp_timeout_init.
use Prim.Native.Nat.{bit_xor}
use ppsi.Ds.{
  Globals, Rand, set_inst, to_ann_receipt, to_ann_send, to_bmc, to_count, to_qualification,
  to_request, to_sync_send,
}
use ppsi.Prelude.{
  Bool, List, eqb_ℤ, false, get_or, if◌then◌else◌, is_pos, ltb, ltb_ℤ, neg_ℤ, negsuc, of_word, pos,
  pos_part, suc, to_word, true, update, zero, ℕ, ℤ, ◌%◌, ◌&&◌, ◌*◌, ◌+◌, ◌/◌, ◌==◌, ◌^◌, ◌||◌,
}
use ppsi.Timeout.Defs.{is_common_set, pp_get_counter, pp_timeout_set_tmo, timeout_disable_value}

-- The interval 2 ^ logValue seconds in milliseconds, with the exponent held within -9 and 21.
unfoldable pub pp_timeout_log_to_ms : ℤ → ℕ
pp_timeout_log_to_ms (pos n) = if ltb 21 n then 2 ^ 21 * 1000 else 2 ^ n * 1000
pp_timeout_log_to_ms (negsuc n) = if ltb 9 (n + 1) then 1000 / 2 ^ 9 else 1000 / 2 ^ (n + 1)

-- The last four octets of the clock identity, as a little-endian machine reads them.
unfoldable pub mac_seed : List ℕ → ℕ
mac_seed id = get_or id 4 0 + 256 * get_or id 5 0 + 65536 * get_or id 6 0 + 16777216 * get_or id 7 0

-- seed *= 1103515245; seed += 12345;
unfoldable pub next_seed : ℕ → ℕ
next_seed s = (s * 1103515245 + 12345) % 2 ^ 32

-- The 21 random bits made from two steps of the generator.
unfoldable pub rand_value : ℕ → ℕ → ℕ
rand_value s1 s2 = bit_xor (s1 / 65536 % 2048 * 1024) (s2 / 65536 % 1024)

-- The switch on which_rand, for a positive `m` which is 40% of the reference value.
unfoldable pub spread : Rand → ℕ → ℕ → ℕ
spread Rand.rand_70_130 m rval = m * 2 + rval % m
spread Rand.rand_0_200 m rval = rval % (m * 5)
spread Rand.rand_none m rval = m

-- A C division of an int by a positive constant: towards zero.
unfoldable pub div_int : ℤ → ℕ → ℤ
div_int (pos n) d = pos (n / d)
div_int (negsuc n) d = neg_ℤ (pos ((n + 1) / d))

-- (millisec << 1) / 5 in ints
unfoldable pub forty_percent : ℤ → ℤ
forty_percent millisec = div_int (of_word 32 (2 * to_word 32 millisec % 2 ^ 32)) 5

-- 40% of the reference value, then the random part if that is positive.
unfoldable pub randomize : Rand → ℤ → ℕ → ℤ
randomize r millisec rval =
    let m = forty_percent millisec in if is_pos m then pos (spread r (pos_part m) rval) else m

abbrev pub is_randomized : Rand → Bool
is_randomized Rand.rand_none = false
is_randomized _ = true

-- initValueMs * multiplier, in unsigned arithmetic, back to an int
unfoldable pub scale : ℤ → ℕ → ℤ
scale v multiplier = of_word 32 (to_word 32 v * multiplier % 2 ^ 32)

-- The part of __pp_timeout_reset that draws random bits and sets the counter.
unfoldable pub reset_randomized : Globals → ℕ → ℕ → Rand → ℤ → Globals
reset_randomized g ppi index r millisec =
    let s0 = if g.seed == 0 then mac_seed g.default_ds.clock_identity.id else g.seed in
    let s1 = next_seed s0 in
    let s2 = next_seed s1 in
    pp_timeout_set_tmo (record g { seed = s2 }) ppi index (randomize r millisec (rand_value s1 s2))

-- __pp_timeout_reset; pp_timeout_reset_N is another name of it
unfoldable pub pp_timeout_reset_n : Globals → ℕ → ℕ → ℕ → Globals
pp_timeout_reset_n g ppi index multiplier =
    let t = pp_get_counter g ppi index in
    let millisec = scale t.init_value_ms multiplier in
    if eqb_ℤ t.init_value_ms timeout_disable_value
    then g
    else if is_randomized t.which_rand && is_pos millisec
    then reset_randomized g ppi index t.which_rand millisec
    else pp_timeout_set_tmo g ppi index millisec

unfoldable pub pp_timeout_reset : Globals → ℕ → ℕ → Globals
pp_timeout_reset g ppi index = pp_timeout_reset_n g ppi index 1

-- The loop of pp_timeout_setall from index `i`, with `n` rounds left.
unfoldable pub setall_loop : ℕ → ℕ → Globals → ℕ → Globals
setall_loop zero i g ppi = g
setall_loop (suc n) i g ppi =
    setall_loop n (i + 1) (if is_common_set i then pp_timeout_reset g ppi i else g) ppi

unfoldable pub pp_timeout_setall : Globals → ℕ → Globals
pp_timeout_setall g ppi = pp_timeout_set_tmo (setall_loop to_count 0 g ppi) ppi to_ann_send (pos 20)

-- tmoCnt[index].initValueMs = v, in the instance's own array
unfoldable pub set_init_value : Globals → ℕ → ℕ → ℤ → Globals
set_init_value g ppi index v =
    let p = g.inst ppi in
    set_inst g ppi (record p {
      tmo_cfg = update p.tmo_cfg index (record (p.tmo_cfg index) { init_value_ms = v });
    })

-- tmoCnt[index].which_rand = r
unfoldable pub set_rand : Globals → ℕ → ℕ → Rand → Globals
set_rand g ppi index r =
    let p = g.inst ppi in
    set_inst g ppi
      (record p { tmo_cfg = update p.tmo_cfg index (record (p.tmo_cfg index) { which_rand = r }) })

-- The block of pp_timeout_init on the BMCA timer: the shortest announce interval wins.
unfoldable pub init_bmc_timer : Globals → ℕ → Globals
init_bmc_timer g ms =
    let v = ((g.inst 0).tmo_cfg to_bmc).init_value_ms in
    if eqb_ℤ v timeout_disable_value || ltb_ℤ (pos ms) v
    then set_init_value g 0 to_bmc (pos ms)
    else g

-- Announce receipt and qualification, off when the external port configuration is enabled.
unfoldable pub init_announce_timers : Globals → ℕ → Globals
init_announce_timers g ppi =
    let port = (g.inst ppi).port_ds in
    let interval = 2 ^ port.log_announce_interval in
    let receipt = pos (1000 * (port.announce_receipt_timeout * interval)) in
    let qualification = pos (1000 * interval * (g.current_ds.steps_removed + 1)) in
    if g.default_ds.external_port_configuration_enabled
    then set_init_value (set_init_value g ppi to_ann_receipt timeout_disable_value) ppi
        to_qualification timeout_disable_value
    else set_init_value (set_init_value g ppi to_ann_receipt receipt) ppi to_qualification
        qualification

unfoldable pub pp_timeout_init : Globals → ℕ → Globals
pp_timeout_init g ppi =
    let port = (g.inst ppi).port_ds in
    let p2p = (g.inst ppi).delay_mechanism_p2p in
    let log_delay_request =
      if p2p then port.log_min_pdelay_req_interval else port.log_min_delay_req_interval in
    let announce_ms = pp_timeout_log_to_ms (pos port.log_announce_interval) in
    let g = set_rand g ppi to_request (if p2p then Rand.rand_none else Rand.rand_0_200) in
    let g = set_rand g ppi to_ann_send Rand.rand_70_130 in
    let g = set_rand g ppi to_sync_send Rand.rand_70_130 in
    let g = set_init_value g ppi to_request (pos (pp_timeout_log_to_ms log_delay_request)) in
    let g = set_init_value g ppi to_sync_send (pos (pp_timeout_log_to_ms port.log_sync_interval)) in
    let g = init_bmc_timer g announce_ms in
    let g = init_announce_timers g ppi in set_init_value g ppi to_ann_send (pos announce_ms)
