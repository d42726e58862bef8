-- ===== src/Lora/Modem.antt =====
-- The state machine of `BaseModem` in micropython/lora/lora/lora/modem.py: standby, receive and send,
-- as the drivers share it. What a driver, the board and the application add is the record `Radio` of
-- operations on a state of their own; a call returns its result, or an exception, and both states.
pub mod Calls
pub mod Receiving
pub mod Sending
mod Tests
use micropython_lib.Prelude.{
  ℕ, ◌+◌, Bool, true, false, not, ◌&&◌, ◌||◌, ◌==◌, if◌then◌else◌, List, [], ◌∷◌, Option, none,
  some, Result, ok, raise, value_error, bit_and,
}
use micropython_lib.Prelude.Int.{ℤ, pos, pos_part, leb_ℤ}

-- `_rx`: False, True, or the deadline of a receive with a timeout. On MicroPython, True is no int.
pub data Rx : Type 0 where
  off on : Rx
  until : ℕ → Rx

pub record Modem : Type 0 where
  pub rx : Rx
  pub rx_continuous : Bool
  pub rx_length : ℕ
  pub tx : Bool
  pub last_irq : Option ℕ
  pub crc_errors : ℕ
  pub rx_crc_error : Bool
  pub has_ant_sw : Bool
  pub has_callback : Bool

-- What `BaseModem` calls: the methods and masks of the driver, the antenna switch, the callback of the
-- application, and the clock of the board. `begin_recv` is what a driver's own `start_recv` does to
-- the radio after it has called that of the base class, if no send is in progress.
pub record Radio (H : Type 0) : Type 0 where
  pub standby : H → H
  pub is_idle : H → Bool × H
  pub get_irq : H → ℕ × H
  pub clear_irq : ℕ → H → H
  pub rx_flags_success : ℕ → Bool
  pub read_packet : ℕ → H → List ℕ × H
  pub begin_recv : Option ℕ → Bool → ℕ → H → H
  pub ant_idle : H → H
  pub ant_rx : H → H
  pub irq_callback : H → H
  pub schedule : H → H
  pub ticks_ms : H → ℕ × H
  pub ticks_add : ℕ → ℕ → ℕ
  pub ticks_diff : ℕ → ℕ → ℤ
  pub irq_rx_complete : ℕ
  pub irq_tx_complete : ℕ
  pub irq_all : ℕ

pub record State (H : Type 0) : Type 0 where
  pub modem : Modem
  pub hw : H

abbrev pub Action : Type 0 → Type 0 → Type 0
Action H A = State H → Result A × State H

module _ {H : Type 0} where
  infixl 5 ◌>>=◌ ◌>>◌
  abbrev pub ◌>>=◌ : {A B : Type 0} → Action H A → (A → Action H B) → Action H B
  ◌>>=◌ m f s = let (a, t) = m s in elim a [ raise e ↦ (raise e, t) | ok x ↦ f x t ]

  abbrev pub ◌>>◌ : {A B : Type 0} → Action H A → Action H B → Action H B
  m >> k = m >>= λ _. k

  abbrev pub pure : {A : Type 0} → A → Action H A
  pure a s = (ok a, s)

  abbrev pub fail : {A : Type 0} → Action H A
  fail s = (raise value_error, s)

  abbrev pub gets : {A : Type 0} → (Modem → A) → Action H A
  gets f s = (ok (f s.modem), s)

  abbrev pub modify : (Modem → Modem) → Action H (Unit {0})
  modify f s = (ok tt, record s { modem = f s.modem })

  abbrev pub asks : {A : Type 0} → (H → A × H) → Action H A
  asks f s = let (a, h) = f s.hw in (ok a, record s { hw = h })

  abbrev pub tells : (H → H) → Action H (Unit {0})
  tells f s = (ok tt, record s { hw = f s.hw })

  abbrev pub skip : Action H (Unit {0})
  skip s = (ok tt, s)

abbrev pub is_off : Rx → Bool
is_off off = true
is_off on = false
is_off (until t) = false

-- `not self._rx`: a deadline of 0 is false too.
abbrev pub is_false : Rx → Bool
is_false off = true
is_false on = false
is_false (until t) = t == 0

-- What `poll_recv` returns: a packet, True or False.
pub data Polled : Type 0 where
  packet : List ℕ → Polled
  receiving not_receiving : Polled

-- `packet or res`: no packet and an empty one are false.
abbrev pub packet_or : Option (List ℕ) → Bool → Polled
packet_or none res = if res then receiving else not_receiving
packet_or (some []) res = if res then receiving else not_receiving
packet_or (some (x ∷ p)) res = packet (x ∷ p)

-- What `poll_send` returns: True, False, or the time at which the send ended.
pub data Sent : Type 0 where
  sending not_sending : Sent
  sent_at : ℕ → Sent

module _ {H : Type 0} (r : Radio H) where
  unfoldable pub ant_idle : Action H (Unit {0})
  ant_idle = do has ← gets (λ m. m.has_ant_sw); if has then tells r.ant_idle else skip

  unfoldable pub radio_isr : Action H (Unit {0})
  radio_isr = do
    now ← asks r.ticks_ms
    modify (λ m. record m { last_irq = some now })
    has ← gets (λ m. m.has_callback)
    if has then tells r.irq_callback else skip

  unfoldable pub standby : Action H (Unit {0})
  standby = do
    tells r.standby
    modify (λ m. record m { rx = off; tx = false; last_irq = none })
    ant_idle
    radio_isr

  unfoldable pub irq_triggered : Action H Bool
  irq_triggered = do
    last ← gets (λ m. m.last_irq)
    pure (elim last [ none ↦ false | some _ ↦ true ])

  abbrev pub or_now : Option ℕ → Action H ℕ
  or_now none = asks r.ticks_ms
  or_now (some t) = pure t

  unfoldable pub get_last_irq : Action H ℕ
  get_last_irq = do last ← gets (λ m. m.last_irq); or_now last

  unfoldable pub deadline : Option ℕ → Action H Rx
  deadline none = pure on
  deadline (some timeout_ms) = do now ← asks r.ticks_ms; pure (until (r.ticks_add now timeout_ms))

  -- `BaseModem.start_recv`
  unfoldable pub base_start_recv : Option ℕ → Bool → ℕ → Action H (Unit {0})
  base_start_recv timeout_ms continuous rx_length =
      if continuous && (elim timeout_ms [ none ↦ false | some _ ↦ true ]) then fail else do
        rx ← deadline timeout_ms
        modify (λ m. record m { rx = rx; rx_continuous = continuous; rx_length = rx_length })
        wanted ← gets (λ m. m.has_ant_sw && not m.tx)
        if wanted then tells r.ant_rx else skip

  -- `start_recv` of a driver.
  unfoldable pub start_recv : Option ℕ → Bool → ℕ → Action H (Unit {0})
  start_recv timeout_ms continuous rx_length = do
    base_start_recv timeout_ms continuous rx_length
    busy ← gets (λ m. m.tx)
    if busy then skip else tells (r.begin_recv timeout_ms continuous rx_length)

  unfoldable pub end_recv : Action H (Unit {0})
  end_recv = do modify (λ m. record m { rx = off }); ant_idle

  -- The end of `_check_recv`: the receive is started again, and `_rx` put back.
  unfoldable pub resume : Rx → Option ℕ → Action H Bool
  resume rx timeout_ms = do
    m ← gets (λ m. m)
    start_recv timeout_ms m.rx_continuous m.rx_length
    modify (λ n. record n { rx = rx })
    pure true

  -- `_check_recv` of a receive that the radio has left.
  unfoldable pub check_idle : Rx → Action H Bool
  check_idle off = pure false
  check_idle on = resume on none
  check_idle (until t) = do
    now ← asks r.ticks_ms
    let left = r.ticks_diff t now
    if leb_ℤ left (pos 0)
        then (do end_recv; tells r.schedule; pure false)
        else resume (until t) (some (pos_part left))

  unfoldable pub check_recv : Action H Bool
  check_recv = do
    rx ← gets (λ m. m.rx)
    if is_false rx
        then pure false
        else (do idle ← asks r.is_idle; if idle then check_idle rx else pure true)

  -- A completed receive in `poll_recv`.
  unfoldable pub take_packet : ℕ → Action H (Option (List ℕ))
  take_packet flags = do
    tells (r.clear_irq flags)
    let good = r.rx_flags_success flags
    if good then skip else modify (λ m. record m { crc_errors = m.crc_errors + 1 })
    all ← gets (λ m. m.rx_crc_error)
    if good || all
        then (do
          p ← asks (r.read_packet flags)
          continuous ← gets (λ m. m.rx_continuous)
          if continuous then skip else end_recv
          pure (some p))
        else pure none

  unfoldable pub poll_recv : Action H Polled
  poll_recv = do
    m ← gets (λ m. m)
    if is_off m.rx then pure not_receiving else if m.tx then pure receiving else (do
      flags ← asks r.get_irq
      p ← (if bit_and flags r.irq_rx_complete == 0 then pure none else take_packet flags)
      res ← check_recv
      pure (packet_or p res))

  unfoldable pub poll_send : Action H Sent
  poll_send = do
    tx ← gets (λ m. m.tx)
    if not tx then pure not_sending else (do
      ticks ← get_last_irq
      flags ← asks r.get_irq
      if bit_and flags r.irq_tx_complete == 0 then pure sending else (do
        tells (r.clear_irq r.irq_all)
        modify (λ m. record m { tx = false })
        ant_idle
        check_recv
        pure (sent_at ticks)))
