-- ===== src/Quality/Defaults.antt =====
-- The attributes that a device announces when they are not configured.
use ppsi.Ds.{Globals}
use ppsi.Prelude.{Bool, ap, arith, is_set, ℕ, ◌≡◌}
use ppsi.Quality.Tables.{default_device_attributes}
use ppsi.Quality.Update.{
  bmc_apply_configured_device_attributes, bmc_set_default_device_attributes, fill_octet,
  fill_options, find_default,
}

fill_octet-same : (n : ℕ) (b : Bool) → fill_octet n b ≡ n
unfolding fill_octet
fill_octet-same n b = ground arith

-- Once the default attributes are filled in and applied, each of the three flags is announced just when
-- the octet of its option is not 0, for every class and every row of the defaults: an option that was
-- meant to be unset is 255 and counts as set.
pub bmc_set_default_device_attributes-flags :
    (g : Globals)
    → let prop =
        (bmc_apply_configured_device_attributes
          (bmc_set_default_device_attributes g)).time_properties_ds in
      (prop.ptp_timescale ≡ is_set g.rt_opts.ptp_time_scale)
      × (prop.frequency_traceable ≡ is_set g.rt_opts.frequency_traceable)
      × (prop.time_traceable ≡ is_set g.rt_opts.time_traceable)
unfolding bmc_set_default_device_attributes bmc_apply_configured_device_attributes fill_options
bmc_set_default_device_attributes-flags g =
    let opts = g.rt_opts in
    let d = find_default opts.clock_quality_clock_class default_device_attributes in
    (
      ap is_set (fill_octet-same opts.ptp_time_scale d.ptp_time_scale),
      ap is_set (fill_octet-same opts.frequency_traceable d.frequency_traceable),
      ap is_set (fill_octet-same opts.time_traceable d.time_traceable),
    )
