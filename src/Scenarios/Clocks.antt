-- ===== src/Scenarios/Clocks.antt =====
-- Counters at work.
use ppsi.Ds.{Globals, Rand, to_request}
use ppsi.Prelude.{arith, negsuc, pos, refl, true, update, ◌≡◌}
use ppsi.Scenarios.Device.{sample, sample_port}
use ppsi.Timeout.Defs.{pp_timeout, pp_timeout_set, timeout_disable_value}
use ppsi.Timeout.Expiry.{advance, pp_timeout-set}
use ppsi.Timeout.Reset.{pp_timeout_log_to_ms}

pp_timeout-set_example :
    pp_timeout (advance 1200 (pp_timeout_set sample 0 to_request (pos 1000))) 0 to_request ≡ true
pp_timeout-set_example =
    pp_timeout-set sample 0 to_request 1000 1200 (omega arith) (omega arith) (omega arith)

-- An eighth of a second
log_to_ms_eighth : pp_timeout_log_to_ms (negsuc 2) ≡ 125
unfolding pp_timeout_log_to_ms
log_to_ms_eighth = refl

abbrev disabled_request : Globals
disabled_request = record sample {
  inst = λ i. record sample_port {
    tmo_cfg =
        update sample_port.tmo_cfg to_request
          (record { which_rand = Rand.rand_none; init_value_ms = timeout_disable_value; tmo = 0 });
  };
}
