-- ===== src/Servo/Delays.antt =====
-- The delay between the two ends and the offset that the servo computes from the timestamps
-- (proto-standard/servo.c) are exact.
use ppsi.Ds.{PpTime}
use ppsi.Prelude.{arith, neg_part, pos_part, ℕ, ◌*◌, ◌+◌, ◌<◌, ◌^◌, ◌≡◌, ◌≤◌}
use ppsi.Servo.Port.{Stamps}
use ppsi.Servo.Steps.{calculate_e2e_delay_mm}
use ppsi.Time.Arith.{pp_time_sub}
use ppsi.Time.Loops.{against_it, for_it}
use ppsi.Time.Normal.{IsNormal}
use ppsi.Time.Sums.{IsSum, pp_time_sub-IsSum}

-- Seconds of less than `n`, without the sign
abbrev Within : ℕ → PpTime → Type 0
Within n t = (pos_part t.secs < n) × (neg_part t.secs < n)

-- A timestamp with seconds of less than 58 bits, in the form that the arithmetic keeps
abbrev pub IsStamp : PpTime → Type 0
IsStamp t = IsNormal t × (pos_part t.secs < 2 ^ 58) × (neg_part t.secs < 2 ^ 58)

sub-Within :
    (n : ℕ) (a b r : PpTime)
    → IsNormal a
    → IsNormal b
    → Within n a
    → Within n b
    → IsNormal r
    → IsSum a r b
    → Within (2 * n + 3) r
sub-Within n a b r na nb wa wb nr s = (omega arith, omega arith)

-- The difference of two times, when they are small
difference :
    (n : ℕ) (a b : PpTime)
    → n ≤ 2 ^ 60
    → IsNormal a
    → IsNormal b
    → Within n a
    → Within n b
    → IsNormal (pp_time_sub a b)
      × IsSum a (pp_time_sub a b) b
      × Within (2 * n + 3) (pp_time_sub a b)
difference n a b h na nb wa wb =
    let (normal, sum) = pp_time_sub-IsSum a b na nb (omega arith) (omega arith) in
    (normal, sum, sub-Within n a b (pp_time_sub a b) na nb wa wb normal sum)

-- The time that is t4 - t1 - (t3 - t2)
abbrev pub TellsRoundTrip : (t1 t2 t3 t4 r : PpTime) → Type 0
TellsRoundTrip t1 t2 t3 t4 r =
    for_it r + (against_it t4 + for_it t1) + (for_it t3 + against_it t2)
    ≡ against_it r + (for_it t4 + against_it t1) + (against_it t3 + for_it t2)

-- From four normal timestamps, the end-to-end mechanism computes exactly the time that the two
-- messages spent on the way together, t4 - t1 - (t3 - t2), and the result is normal again.
pub calculate_e2e_delay_mm_lem :
    (v : Stamps)
    → IsStamp v.t1
    → IsStamp v.t2
    → IsStamp v.t3
    → IsStamp v.t4
    → IsNormal (calculate_e2e_delay_mm v)
      × TellsRoundTrip v.t1 v.t2 v.t3 v.t4 (calculate_e2e_delay_mm v)
unfolding calculate_e2e_delay_mm
calculate_e2e_delay_mm_lem v h1 h2 h3 h4 =
    let m = difference (2 ^ 58) v.t4 v.t1 (omega arith) h4.0 h1.0 (h4.1, h4.2) (h1.1, h1.2) in
    let s = difference (2 ^ 58) v.t3 v.t2 (omega arith) h3.0 h2.0 (h3.1, h3.2) (h2.1, h2.2) in
    let r =
      difference (2 ^ 60) (pp_time_sub v.t4 v.t1) (pp_time_sub v.t3 v.t2) (omega arith) m.0 s.0
        (omega arith) (omega arith) in
    (r.0, omega arith)
