-- ===== src/Scenarios/Times.antt =====
-- Times on which the arithmetic of lib/time-arith.c runs.
use ppsi.Ds.{PpTime}
use ppsi.Prelude.{arith, inl, negsuc, pos, refl, to_word, ◌+ℤ◌, ◌-ℤ◌, ◌≡◌}
use ppsi.Time.Arith.{
  is_incorrect, is_negative, is_odd, lower_loop, normalize_pp_time, pp_time_add, pp_time_div2,
  pp_time_sub, raise_loop, run_loops, shift_down,
}
use ppsi.Time.Convert.{picos_to_pp_time, pp_time_to_picos, signed_like}
use ppsi.Time.Normal.{IsNormal}
use ppsi.Time.Picos.{pp_time_to_picos-picos_to_pp_time, rounded_up}
use ppsi.Time.Sums.{IsSmall, IsSum, pp_time_add-IsSum, pp_time_sub-IsSum}

abbrev morning : PpTime
morning = record { secs = pos 5; scaled_nsecs = pos 60000000000000 }

abbrev noon : PpTime
noon = record { secs = pos 7; scaled_nsecs = pos 10000000000001 }

morning-IsNormal : IsNormal morning
morning-IsNormal = inl (refl, refl, omega arith)

noon-IsNormal : IsNormal noon
noon-IsNormal = inl (refl, refl, omega arith)

morning-IsSmall : IsSmall morning
morning-IsSmall = (omega arith, omega arith)

noon-IsSmall : IsSmall noon
noon-IsSmall = (omega arith, omega arith)

pp_time_add-IsSum_example :
    IsNormal (pp_time_add morning noon) × IsSum (pp_time_add morning noon) morning noon
pp_time_add-IsSum_example =
    pp_time_add-IsSum morning noon morning-IsNormal noon-IsNormal morning-IsSmall noon-IsSmall

pp_time_sub-IsSum_example :
    IsNormal (pp_time_sub morning noon) × IsSum morning (pp_time_sub morning noon) noon
pp_time_sub-IsSum_example =
    pp_time_sub-IsSum morning noon morning-IsNormal noon-IsNormal morning-IsSmall noon-IsSmall

-- Half of -1 second is computed to be -1.5 seconds.
minus_one :
    pp_time_div2 (record { secs = negsuc 0; scaled_nsecs = pos 0 })
    ≡ record { secs = negsuc 0; scaled_nsecs = negsuc 32767999999999 }
unfolding pp_time_div2 shift_down is_odd ◌+ℤ◌
minus_one = refl

carries : pp_time_add morning noon ≡ record { secs = pos 13; scaled_nsecs = pos 4464000000001 }
unfolding pp_time_add normalize_pp_time run_loops raise_loop lower_loop is_negative is_incorrect
    to_word ◌+ℤ◌ ◌-ℤ◌
carries = refl

pp_time_to_picos-picos_to_pp_time_example :
    pp_time_to_picos (picos_to_pp_time (negsuc 5000061))
    ≡ signed_like (negsuc 5000061) (rounded_up 5000062)
pp_time_to_picos-picos_to_pp_time_example =
    pp_time_to_picos-picos_to_pp_time (negsuc 5000061) (omega arith)
