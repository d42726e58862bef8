-- ===== src/Lora/Modem/Sending.antt =====
-- `poll_send`: the end of a send is reported once.
use micropython_lib.Prelude.{
  ℕ, ◌≡◌, refl, sym, arith, Bool, true, false, not, ◌==◌, if◌then◌else◌, Option, none, some, ok,
  raise, bit_and,
}
use mathlib.Core.Path.{subst}
use micropython_lib.Lora.Modem.{
  ◌>>=◌, ◌>>◌, pure, modify, asks, tells, skip, Modem, Radio, State, Action, ant_idle, check_recv,
  or_now, get_last_irq, poll_send, Sent, sending, not_sending, sent_at,
}
use micropython_lib.Lora.Modem.Calls.{
  Returns, IsConsistent, Checked, bind_Returns, if_Returns, if_true, check_recv_lem, tx-Checked,
}

-- The time of the last interrupt, or else the present one, which is asked of the clock.
abbrev pub last_or_now : {H : Type 0} → Radio H → Option ℕ → H → ℕ × H
last_or_now r none h = r.ticks_ms h
last_or_now r (some t) h = (t, h)

abbrev pub timed : {H : Type 0} → Radio H → State H → ℕ × H
timed r s = last_or_now r s.modem.last_irq s.hw

abbrev pub is_sent : {H : Type 0} → Radio H → State H → Bool
is_sent r s = not (bit_and (r.get_irq (timed r s).1).0 r.irq_tx_complete == 0)

-- The state when the flags are cleared, `_tx` too, and the antenna is switched off.
abbrev pub stopped_send : {H : Type 0} → Radio H → State H → State H
stopped_send r s = record {
  modem = record s.modem { tx = false };
  hw =
      let h = r.clear_irq r.irq_all (r.get_irq (timed r s).1).1 in
      if s.modem.has_ant_sw then r.ant_idle h else h;
}

-- The answer of `poll_send` and the fields after it.
pub data Reported {H : Type 0} (r : Radio H) (s : State H) : Sent → Modem → Type 0 where
  idle : s.modem.tx ≡ false → Reported r s not_sending s.modem
  waits : s.modem.tx ≡ true → is_sent r s ≡ false → Reported r s sending s.modem
  ended :
      (a : Bool) (n : Modem)
      → s.modem.tx ≡ true
      → is_sent r s ≡ true
      → Checked r (stopped_send r s) a n
      → Reported r s (sent_at (timed r s).0) n

flag_down : (b : Bool) → not b ≡ true → b ≡ false
flag_down b e = ground arith

raised_negation : (b : Bool) → b ≡ false → not b ≡ true
raised_negation b e = ground arith

flag_up : (b : Bool) → not b ≡ false → b ≡ true
flag_up b e = ground arith

no_flag : (n : ℕ) → (n == 0) ≡ true → not (n == 0) ≡ false
no_flag n e = ground arith

a_flag : (n : ℕ) → (n == 0) ≡ false → not (n == 0) ≡ true
a_flag n e = ground arith

module _ {H : Type 0} (r : Radio H) where
  tx-Reported : (s : State H) (n : Modem) (t : ℕ) → Reported r s (sent_at t) n → n.tx ≡ false
  tx-Reported s n t (ended a _ e q k) = tx-Checked r (stopped_send r s) n a k

  get_last_irq-eq :
      (s : State H) → get_last_irq r s ≡ (ok (timed r s).0, record s { hw = (timed r s).1 })
  unfolding get_last_irq
  get_last_irq-eq s = from s.modem.last_irq
    where
      from :
          (last : Option ℕ)
          → or_now r last s
            ≡ (ok (last_or_now r last s.hw).0, record s { hw = (last_or_now r last s.hw).1 })
      from none = refl
      from (some t) = refl

  ant_idle-eq :
      (s : State H)
      → ant_idle r s
        ≡ (ok tt, record s { hw = if s.modem.has_ant_sw then r.ant_idle s.hw else s.hw })
  unfolding ant_idle
  ant_idle-eq s = from s.modem.has_ant_sw
    where
      from :
          (b : Bool)
          → (if b then tells r.ant_idle else skip) s
            ≡ (ok tt, record s { hw = if b then r.ant_idle s.hw else s.hw })
      from true = refl
      from false = refl

  finish_send : ℕ → Action H Sent
  finish_send t =
      tells (r.clear_irq r.irq_all)
      >> (modify (λ m. record m { tx = false })
          >> (ant_idle r >> (check_recv r >> pure (sent_at t))))

  -- From the state in which the flags have been read.
  finish_send_lem :
      (s : State H)
      → s.modem.tx ≡ true
      → is_sent r s ≡ true
      → IsConsistent s.modem
      → Returns
          (Reported r s)
          (finish_send (timed r s).0 (record s { hw = (r.get_irq (timed r s).1).1 }))
  unfolding finish_send
  finish_send_lem s e f c =
      let t : State H = record {
        modem = record s.modem { tx = false };
        hw = r.clear_irq r.irq_all (r.get_irq (timed r s).1).1;
      } in
      subst
        (λ x. Returns {H = H} (Reported r s) (elim x.0 [
          | raise e ↦ (raise e, x.1)
          | ok _ ↦ (check_recv r >> pure (sent_at (timed r s).0)) x.1
        ]))
        (sym (ant_idle-eq t))
        (bind_Returns (Checked r (stopped_send r s)) (Reported r s) (check_recv r)
          (λ _. pure (sent_at (timed r s).0)) (stopped_send r s)
          (check_recv_lem r (stopped_send r s) c) (λ a v k. ended a v.modem e f k))

  abbrev unless_done : ℕ → Action H Sent
  unless_done t = asks r.get_irq >>= λ flags.
      if bit_and flags r.irq_tx_complete == 0 then pure sending else finish_send t

  unless_done_lem :
      (s : State H)
      → s.modem.tx ≡ true
      → IsConsistent s.modem
      → Returns (Reported r s) (unless_done (timed r s).0 (record s { hw = (timed r s).1 }))
  unless_done_lem s e c =
      if_Returns (Reported r s) (bit_and (r.get_irq (timed r s).1).0 r.irq_tx_complete == 0)
        (pure sending) (finish_send (timed r s).0) (record s { hw = (r.get_irq (timed r s).1).1 })
        (λ q. waits e (no_flag _ q)) (λ q. finish_send_lem s e (a_flag _ q) c)

  pub poll_send-Reported :
      (s : State H) → IsConsistent s.modem → Returns (Reported r s) (poll_send r s)
  unfolding poll_send finish_send
  poll_send-Reported s c =
      if_Returns (Reported r s) (not s.modem.tx) (pure not_sending) (get_last_irq r >>= unless_done)
        s (λ e. idle (flag_down s.modem.tx e))
        (λ e.
          subst
            (λ x.
              Returns {H = H} (Reported r s)
                (elim x.0 [ raise e ↦ (raise e, x.1) | ok t ↦ unless_done t x.1 ]))
            (sym (get_last_irq-eq s)) (unless_done_lem s (flag_up s.modem.tx e) c))

  -- Once `poll_send` has reported the end of a send, the next call answers False and changes nothing.
  pub poll_send_once :
      (s u : State H) (t : ℕ)
      → IsConsistent s.modem
      → poll_send r s ≡ (ok (sent_at t), u)
      → poll_send r u ≡ (ok not_sending, u)
  unfolding poll_send finish_send
  poll_send_once s u t c e =
      if_true (not u.modem.tx) (pure not_sending)
        (get_last_irq r >>= λ t. asks r.get_irq >>= λ flags.
          if bit_and flags r.irq_tx_complete == 0 then pure sending else finish_send t)
        u (raised_negation u.modem.tx (tx-Reported s u.modem t (rw e at (poll_send-Reported s c))))
