-- ===== src/Quality/Lookup.antt =====
-- Which row of the table of degradations belongs to a clock class.
use ppsi.Prelude.{==_iff, Option, if_case, none, some, ℕ, ◌==◌, ◌≡◌}
use ppsi.Quality.Tables.{
  ClockDegradation, arb_locked_row, arb_unlocked_a_row, arb_unlocked_b_row, clock_degradation,
  ptp_locked_row,
}
use ppsi.Quality.Update.{find_degradation}

-- What holds of the row that is found for a class holds whichever row that is.
pub find_degradation-by :
    (c : ℕ) (P : Option (ℕ × ClockDegradation) → Type 0)
    → P none
    → (c ≡ 6 → P (some (0, ptp_locked_row)))
    → (c ≡ 13 → P (some (1, arb_locked_row)))
    → (c ≡ 58 → P (some (2, arb_unlocked_a_row)))
    → (c ≡ 193 → P (some (3, arb_unlocked_b_row)))
    → P (find_degradation c 0 clock_degradation)
unfolding find_degradation clock_degradation
find_degradation-by c P p0 p6 p13 p58 p193 =
    if_case (c == 6) P (λ e. p6 ((==_iff c 6).0 e))
      (λ _.
        if_case (c == 13) P (λ e. p13 ((==_iff c 13).0 e))
          (λ _.
            if_case (c == 58) P (λ e. p58 ((==_iff c 58).0 e))
              (λ _. if_case (c == 193) P (λ e. p193 ((==_iff c 193).0 e)) (λ _. p0))))
