-- ===== src/States/Answer.antt =====
-- The time t4 that a slave takes from a Delay_Resp of the master.
use mathlib.Core.Path.{ap₂, subst}
use ppsi.Bmc.Compare.{bmc_idcmp}
use ppsi.Bmc.Order.{memcmp_refl}
use ppsi.Ds.{MsgHeader, PortDs, PpTime}
use ppsi.Msg.Answer.{Answers, FitsRequest, unpack-pack_delay_resp}
use ppsi.Msg.Bytes.{Buffer}
use ppsi.Msg.Events.{msg_pack_delay_resp, msg_unpack_delay_resp}
use ppsi.Msg.Exact.{stamp, whole_stamp}
use ppsi.Msg.Header.{Sender, msg_unpack_header}
use ppsi.Prelude.{
  ap, arith, inl, inr, int_laws, pos, refl, sym, true, ℕ, ℤ, ◌-ℤ◌, ◌<◌, ◌^◌, ◌∙◌, ◌≡◌,
}
use ppsi.Servo.Port.{ServoEnv, Stamps}
use ppsi.States.Common.{msg_from_current_master}
use ppsi.States.Exact.{set_stamps_self}
use ppsi.States.Slave.{
  adopt_interval, c_time, corrected_t4, is_compliant, is_own_response, respond, set_t4,
  slave_handle_response,
}
use ppsi.States.Total.{IsCorrection, IsOrigin, IsTotal, correction-IsNormal, origin-IsNormal}
use ppsi.States.World.{ActHooks, ActWorld, act_globals, act_inst, act_stamps}
use ppsi.Time.Arith.{pp_time_sub}
use ppsi.Time.Normal.{IsNormal}
use ppsi.Time.Sums.{IsSmall, IsSum, pp_time_sub-IsSum}

IsSmall-rest :
    (t r : PpTime) (a : ℤ)
    → IsNormal r
    → IsCorrection a
    → IsOrigin t
    → IsSum t r (record { secs = pos 0; scaled_nsecs = a })
    → IsSmall r
IsSmall-rest t r a (inl n) ha ht e = (omega arith, omega arith)
IsSmall-rest t r a (inr n) ha ht e = (omega arith, omega arith)

-- A time less a correction and less another: first subtracted, then the second.
rest_lem :
    (t : PpTime) (a b : ℤ)
    → IsOrigin t
    → IsCorrection a
    → IsCorrection b
    → IsTotal t
        (pp_time_sub
          (pp_time_sub t (record { secs = pos 0; scaled_nsecs = a }))
          (record { secs = pos 0; scaled_nsecs = b }))
        (record { secs = pos 0; scaled_nsecs = a })
        (record { secs = pos 0; scaled_nsecs = b })
rest_lem t a b ht ha hb =
    let first : PpTime = record { secs = pos 0; scaled_nsecs = a } in
    let second : PpTime = record { secs = pos 0; scaled_nsecs = b } in
    let (n1, s1) =
      pp_time_sub-IsSum t first (origin-IsNormal t ht) (correction-IsNormal a ha)
        (omega arith, omega arith) (omega arith, omega arith) in
    let (n2, s2) =
      pp_time_sub-IsSum (pp_time_sub t first) second n1 (correction-IsNormal b hb)
        (IsSmall-rest t (pp_time_sub t first) a n1 ha ht s1) (omega arith, omega arith) in
    omega (arith, s1, s2)

-- The fraction that the correction carries comes back.
fraction_back :
    (secs nsecs fraction : ℕ) (r u : PpTime) (c : ℤ)
    → IsTotal
        (whole_stamp secs nsecs)
        r
        (record { secs = pos 0; scaled_nsecs = c -ℤ pos fraction })
        u
    → IsTotal (stamp secs nsecs fraction) r (record { secs = pos 0; scaled_nsecs = c }) u
fraction_back secs nsecs fraction r u c h = omega int_laws

-- The answer to a request `hdr` that a master received at the time of the seconds, nanoseconds and fraction
abbrev pub answer_to : PortDs → Sender → MsgHeader → (secs nsecs fraction : ℕ) → Buffer
answer_to port s hdr secs nsecs fraction =
    (msg_pack_delay_resp port true s hdr (stamp secs nsecs fraction)).tx_ptp

-- What the slave does with the answer
pub record Timed (env : ServoEnv) (hooks : ActHooks) (w : ActWorld) (ppi : ℕ) (buf : Buffer)
    (hdr : MsgHeader) (receipt : PpTime) : Type 0 where
  pub accepted :
      slave_handle_response env hooks w ppi buf
      ≡ adopt_interval
          (respond env ppi hooks.handle_resp
            (set_t4 true w ppi (msg_unpack_delay_resp buf).receive_timestamp))
          ppi
  pub t4_is :
      IsTotal receipt
        (act_stamps (set_t4 true w ppi (msg_unpack_delay_resp buf).receive_timestamp) ppi).t4
        (c_time hdr)
        (record { secs = pos 0; scaled_nsecs = (w.act_servo.servo_ports ppi).delay_asymmetry })

-- The slave sent the request `hdr` as its last, and the message that it reads is the answer, from its
-- master.
pub record Asked (w : ActWorld) (ppi : ℕ) (hdr : MsgHeader) (buf : Buffer) : Type 0 where
  pub heard : (act_inst w ppi).received_ptp_header ≡ msg_unpack_header buf
  pub own : (act_inst w ppi).port_ds.port_identity ≡ hdr.source_port_identity
  pub last : (w.act_ports ppi).sent_seq 1 ≡ hdr.sequence_id
  pub from_master : msg_from_current_master (act_globals w) ppi ≡ true

own_response_lem :
    (w : ActWorld) (ppi : ℕ) (hdr : MsgHeader) (buf : Buffer) (secs nsecs fraction : ℕ)
    → Asked w ppi hdr buf
    → Answers hdr secs nsecs fraction buf
    → is_own_response w ppi (msg_unpack_delay_resp buf) ≡ true
unfolding is_own_response bmc_idcmp
own_response_lem w ppi hdr buf secs nsecs fraction asked answers =
    let own = (act_inst w ppi).port_ds.port_identity in
    let same : (msg_unpack_delay_resp buf).requesting_port_identity ≡ own =
      answers.asked_by ∙ sym asked.own in
    let seq : (w.act_ports ppi).sent_seq 1 ≡ (act_inst w ppi).received_ptp_header.sequence_id =
      asked.last ∙ sym answers.sequence ∙ ap (λ (h : MsgHeader). h.sequence_id) (sym asked.heard) in
    rw asked.from_master (rw same (rw (memcmp_refl own.clock_identity.id) (ground (arith, seq))))

t4_lem :
    (w : ActWorld) (ppi : ℕ) (t : PpTime)
    → (act_stamps (set_t4 true w ppi t) ppi).t4 ≡ corrected_t4 true w ppi t
unfolding set_t4
t4_lem w ppi t =
    ap (λ (u : Stamps). u.t4)
      (set_stamps_self w ppi (record (act_stamps w ppi) { t4 = corrected_t4 true w ppi t }))

-- A Delay_Resp that a master packs for the last request of a slave and that the slave reads, with a
-- correction and an asymmetry of at most a second: the slave accepts it, and t4 is exactly the time at
-- which the master received the request, its fraction of a nanosecond included, less the request's
-- correction and less the asymmetry of the port. The extension complies with the standard's use of the
-- correction field.
pub slave_handle_response-t4 :
    (env : ServoEnv) (hooks : ActHooks) (w : ActWorld) (ppi : ℕ) (port : PortDs) (s : Sender)
    (hdr : MsgHeader) (secs nsecs fraction : ℕ)
    → is_compliant hooks w ppi ≡ true
    → FitsRequest hdr
    → secs < 2 ^ 48
    → nsecs < 1000000000
    → fraction < 2 ^ 16
    → IsCorrection (hdr.c_field -ℤ pos fraction)
    → IsCorrection (w.act_servo.servo_ports ppi).delay_asymmetry
    → Asked w ppi hdr (answer_to port s hdr secs nsecs fraction)
    → Timed env hooks w ppi
        (answer_to port s hdr secs nsecs fraction)
        hdr
        (stamp secs nsecs fraction)
unfolding slave_handle_response corrected_t4
slave_handle_response-t4 env hooks w ppi port s hdr secs nsecs fraction comp fits hs hn hf hc ha
      asked =
    let buf = answer_to port s hdr secs nsecs fraction in
    let answers = unpack-pack_delay_resp port s hdr secs nsecs fraction fits hs (omega arith) hf in
    let asym = (w.act_servo.servo_ports ppi).delay_asymmetry in
    let asym_time : PpTime = record { secs = pos 0; scaled_nsecs = asym } in
    let whole = whole_stamp secs nsecs in
    let correction = hdr.c_field -ℤ pos fraction in
    let received = (msg_unpack_delay_resp buf).receive_timestamp in
    let left : PpTime =
      pp_time_sub (pp_time_sub whole (record { secs = pos 0; scaled_nsecs = correction }))
        asym_time in
    let t4_is : (act_stamps (set_t4 true w ppi received) ppi).t4 ≡ left =
      t4_lem w ppi received
      ∙ ap₂
          (λ (a : PpTime) (c : ℤ).
            pp_time_sub (pp_time_sub a (record { secs = pos 0; scaled_nsecs = c })) asym_time)
          answers.received (ap (λ (h : MsgHeader). h.c_field) asked.heard ∙ answers.correction) in
    record {
      accepted =
          rw (own_response_lem w ppi hdr buf secs nsecs fraction asked answers) (rw comp refl);
      t4_is =
          subst (λ r. IsTotal (stamp secs nsecs fraction) r (c_time hdr) asym_time) (sym t4_is)
            (fraction_back secs nsecs fraction left asym_time hdr.c_field (
              rest_lem whole correction asym (omega arith, omega arith, omega arith, omega arith) hc
                ha));
    }
