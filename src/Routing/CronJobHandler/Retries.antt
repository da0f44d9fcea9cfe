-- ===== src/Routing/CronJobHandler/Retries.antt =====
-- A request is sent again three times at most.
use ndn_based_protocol.Prelude.{
  ℕ, zero, suc, ◌+◌, ◌-◌, ◌≤◌, ◌<◌, ◌≡◌, refl, Bool, true, false, not, none, some, List, length,
  leb, length-append, bytes_eq, arith, Bool-cases, inl, inr, if◌then◌else◌, ◌∙◌, ap, nat_eq,
}
use ndn_based_protocol.Prelude.Map.{
  Map, lookup, insert, erase, lookup-insert, lookup-erase, beq_self,
}
use ndn_based_protocol.Routing.Protocol.{Protocol, Environment, Retransmission, send_packet}
use ndn_based_protocol.Routing.CronJobHandler.{
  register_expire_cron_job, info_lsa_expire_cron_job, expire, expire_times,
}

-- What a job answers and leaves.
record IsJob (s : Protocol) (r : Retransmission) (done : Bool × Retransmission × Protocol)
    : Type 0 where
  answer : done.0 ≡ not (leb 3 (r.retransmission_time + 1))
  counted : done.1.retransmission_time ≡ r.retransmission_time + 1
  same_timers : done.2.timers ≡ s.timers
  sent_one : length done.2.sent ≡ length s.sent + 1

module _ (env : Environment) (timer : List ℕ) where
  register-IsJob :
      (s : Protocol) (r : Retransmission) → IsJob s r (register_expire_cron_job env r s)
  unfolding register_expire_cron_job send_packet
  register-IsJob s r = record {
    answer = refl;
    counted = refl;
    same_timers = refl;
    sent_one = length-append s.sent _;
  }

  info-IsJob : (s : Protocol) (r : Retransmission) → IsJob s r (info_lsa_expire_cron_job env r s)
  unfolding info_lsa_expire_cron_job
  info-IsJob s r =
      let j = register-IsJob s r in
      record {
        answer = j.answer;
        counted = j.counted;
        same_timers = ground (arith, j.same_timers);
        sent_one = ground (arith, j.sent_one);
      }

  either-IsJob :
      (is_info : Bool) (s : Protocol) (r : Retransmission)
      → IsJob s r
          (if is_info then info_lsa_expire_cron_job env r s else register_expire_cron_job env r s)
  either-IsJob true s r = info-IsJob s r
  either-IsJob false s r = register-IsJob s r

  expire-sent :
      (is_info : Bool) (s : Protocol) (r : Retransmission)
      → lookup timer s.timers ≡ some r
      → length (expire env is_info timer s).sent ≡ length s.sent + 1
  unfolding expire
  expire-sent is_info s r armed = rw (expire, armed) (either-IsJob is_info s r).sent_one

  expire-timer :
      (is_info : Bool) (s : Protocol) (r : Retransmission)
      → lookup timer s.timers ≡ some r
      → (leb 2 r.retransmission_time ≡ true
          → lookup timer (expire env is_info timer s).timers ≡ none)
        × (leb 2 r.retransmission_time ≡ false
            → (r' : Retransmission) × (lookup timer (expire env is_info timer s).timers ≡ some r')
              × (r'.retransmission_time ≡ r.retransmission_time + 1))
  unfolding expire
  expire-timer is_info s r armed =
      let job : Bool × Retransmission × Protocol =
        if is_info then info_lsa_expire_cron_job env r s else register_expire_cron_job env r s in
      let j : IsJob s r job = either-IsJob is_info s r in
      let kept : Bool → Map (List ℕ) Retransmission =
        λ again. if again then insert timer job.1 job.2.timers else erase timer job.2.timers in
      let after : lookup timer (expire env is_info timer s).timers ≡ lookup timer (kept job.0) =
        rw (expire, armed) refl in
      let is_last : leb 2 r.retransmission_time ≡ true → job.0 ≡ false =
        λ last. j.answer ∙ ground (arith, last) in
      let is_more : leb 2 r.retransmission_time ≡ false → job.0 ≡ true =
        λ more. j.answer ∙ ground (arith, more) in
      (
        λ last.
            after
            ∙ (ap (λ b. lookup timer (kept b)) (is_last last)
                ∙ (lookup-erase timer timer job.2.timers ∙ rw (beq_self timer) refl)),
        λ more. (
          job.1,
          after
              ∙ (ap (λ b. lookup timer (kept b)) (is_more more)
                  ∙ (lookup-insert timer timer job.1 job.2.timers ∙ rw (beq_self timer) refl)),
          j.counted,
        ),
      )

  expire_times-none :
      (n : ℕ) (is_info : Bool) (s : Protocol)
      → lookup timer s.timers ≡ none
      → expire_times n env is_info timer s ≡ s
  unfolding expire_times expire
  expire_times-none zero is_info s gone = refl
  expire_times-none (suc n) is_info s gone =
      ap (expire_times n env is_info timer) (rw (expire, gone) refl)
      ∙ expire_times-none n is_info s gone

  -- The number of packets is the smaller of the expiries and the retries that are left.
  retries_left :
      (n : ℕ) (is_info : Bool) (s : Protocol) (r : Retransmission)
      → lookup timer s.timers ≡ some r
      → r.retransmission_time < 3
      → (length (expire_times n env is_info timer s).sent
          ≡ length s.sent
            + (if leb (3 - r.retransmission_time) n then 3 - r.retransmission_time else n))
        × (3 - r.retransmission_time ≤ n
            → lookup timer (expire_times n env is_info timer s).timers ≡ none)
  unfolding expire_times
  retries_left zero is_info s r armed fresh = (ground arith, λ le. absurd (omega arith))
  retries_left (suc n) is_info s r armed fresh =
      let one = expire-sent is_info s r armed in
      let next : Protocol = expire env is_info timer s in
      elim (Bool-cases (leb 2 r.retransmission_time)) [
        | inl last ↦
            let gone = (expire-timer is_info s r armed).0 last in
            let rest = expire_times-none n is_info next gone in
            (
              ap (λ (t : Protocol). length t.sent) rest ∙ ground (arith, one, last),
              λ le. ap (λ (t : Protocol). lookup timer t.timers) rest ∙ gone,
            )
        | inr more ↦
            let (r', armed', time) = (expire-timer is_info s r armed).1 more in
            let small : r'.retransmission_time < 3 = ground (arith, time, more) in
            let (sent, gone) = retries_left n is_info next r' armed' small in
            (sent ∙ ground (arith, one, time, more), λ le. gone (omega (arith, time)))
      ]

-- A request whose timer was just started is sent again at each of the first three expiries, whichever of
-- the jobs the callback runs, and then no more: after n expiries the smaller of n and 3 packets have gone
-- out, and from the third on the timer is gone.
pub three_retries :
    (n : ℕ) (env : Environment) (is_info : Bool) (timer : List ℕ) (s : Protocol)
    (r : Retransmission)
    → lookup timer s.timers ≡ some r
    → r.retransmission_time ≡ 0
    → (length (expire_times n env is_info timer s).sent
        ≡ length s.sent + (if leb 3 n then 3 else n))
      × (3 ≤ n → lookup timer (expire_times n env is_info timer s).timers ≡ none)
three_retries n env is_info timer s r armed start =
    rw start at (retries_left env timer n is_info s r armed (omega (arith, start)))
