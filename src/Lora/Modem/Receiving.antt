-- ===== src/Lora/Modem/Receiving.antt =====
-- `poll_recv`: packets, the end of a receive, and two answers that tell too little.
use micropython_lib.Prelude.{
  not, ℕ, ◌+◌, ◌≡◌, ap, Bool, true, false, ◌||◌, ◌==◌, if◌then◌else◌, List, Option, none, some, ok,
  raise, bit_and,
}
use micropython_lib.Lora.Modem.{
  ◌>>=◌, ◌>>◌, pure, gets, modify, asks, skip, Modem, off, until, Radio, State, Action, is_off,
  end_recv, check_recv, take_packet, poll_recv, Polled, receiving, not_receiving, packet_or,
}
use micropython_lib.Lora.Modem.Calls.{Checked, if_true}

-- The counter of errors after a packet whose check was good or not.
abbrev pub counted : Bool → Modem → ℕ
counted good m = if good then m.crc_errors else m.crc_errors + 1

-- What a completed packet with the given flags makes of the state behind the clearing of the flags:
-- nothing but a count where the check failed, or the packet that the radio holds, which ends a single
-- receive.
pub data Took {H : Type 0} (r : Radio H) (good : Bool) (flags : ℕ) (s : State H)
    : Option (List ℕ) → State H → Type 0 where
  failed :
      good || s.modem.rx_crc_error ≡ false
      → Took r good flags s none
          (record s { modem = record s.modem { crc_errors = counted good s.modem } })
  single :
      (h : H)
      → good || s.modem.rx_crc_error ≡ true
      → s.modem.rx_continuous ≡ false
      → Took r good flags s (some (r.read_packet flags s.hw).0) (record {
        modem = record s.modem { crc_errors = counted good s.modem; rx = off };
        hw = h;
      })
  one_of_many :
      good || s.modem.rx_crc_error ≡ true
      → s.modem.rx_continuous ≡ true
      → Took r good flags s (some (r.read_packet flags s.hw).0) (record {
        modem = record s.modem { crc_errors = counted good s.modem };
        hw = (r.read_packet flags s.hw).1;
      })

-- The interrupt flags of the radio, the state when they have been read, and when they are cleared.
abbrev pub flags_of : {H : Type 0} → Radio H → State H → ℕ
flags_of r s = (r.get_irq s.hw).0

abbrev pub looked : {H : Type 0} → Radio H → State H → State H
looked r s = record s { hw = (r.get_irq s.hw).1 }

abbrev pub cleared : {H : Type 0} → Radio H → State H → State H
cleared r s = record s { hw = r.clear_irq (flags_of r s) (r.get_irq s.hw).1 }

abbrev pub is_good : {H : Type 0} → Radio H → State H → Bool
is_good r s = r.rx_flags_success (flags_of r s)

abbrev pub has_packet : {H : Type 0} → Radio H → State H → Bool
has_packet r s = not (bit_and (flags_of r s) r.irq_rx_complete == 0)

-- A receive is in progress, and no send.
pub record IsReceiving (m : Modem) : Type 0 where
  pub started : is_off m.rx ≡ false
  pub not_paused : m.tx ≡ false

-- The answer of `poll_recv` and the fields after it.
pub data Answered {H : Type 0} (r : Radio H) (s : State H) : Polled → Modem → Type 0 where
  not_started : s.modem.rx ≡ off → Answered r s not_receiving s.modem
  paused : is_off s.modem.rx ≡ false → s.modem.tx ≡ true → Answered r s receiving s.modem
  no_packet :
      (a : Bool) (n : Modem)
      → IsReceiving s.modem
      → has_packet r s ≡ false
      → Checked r (looked r s) a n
      → Answered r s (if a then receiving else not_receiving) n
  bad_packet :
      (a : Bool) (n : Modem)
      → IsReceiving s.modem
      → has_packet r s ≡ true
      → is_good r s || s.modem.rx_crc_error ≡ false
      → Checked r
          (record (cleared r s) {
            modem = record s.modem { crc_errors = counted (is_good r s) s.modem };
          })
          a
          n
      → Answered r s (if a then receiving else not_receiving) n
  last_packet :
      IsReceiving s.modem
      → has_packet r s ≡ true
      → is_good r s || s.modem.rx_crc_error ≡ true
      → s.modem.rx_continuous ≡ false
      → Answered r s
          (packet_or (some (r.read_packet (flags_of r s) (cleared r s).hw).0) false)
          (record s.modem { crc_errors = counted (is_good r s) s.modem; rx = off })
  next_packet :
      (a : Bool) (n : Modem)
      → IsReceiving s.modem
      → has_packet r s ≡ true
      → is_good r s || s.modem.rx_crc_error ≡ true
      → s.modem.rx_continuous ≡ true
      → Checked r
          (record {
            modem = record s.modem { crc_errors = counted (is_good r s) s.modem };
            hw = (r.read_packet (flags_of r s) (cleared r s).hw).1;
          })
          a
          n
      → Answered r s (packet_or (some (r.read_packet (flags_of r s) (cleared r s).hw).0) a) n

module _ {H : Type 0} (r : Radio H) where
  -- The packet is read, and a single receive ended.
  read_out : ℕ → Action H (Option (List ℕ))
  read_out flags = asks (r.read_packet flags) >>= λ p.
      gets (λ m. m.rx_continuous) >>= λ b. (if b then skip else end_recv r) >> pure (some p)

  -- The state with the error counted.
  abbrev with_count : Bool → State H → State H
  with_count good s = record s { modem = record s.modem { crc_errors = counted good s.modem } }

  take_from : Bool → ℕ → Action H (Option (List ℕ))
  take_from good flags =
      (if good then skip else modify (λ m. record m { crc_errors = m.crc_errors + 1 }))
      >> (gets (λ m. m.rx_crc_error) >>= λ all. if good || all then read_out flags else pure none)

  -- `poll_recv` of a receive that goes on.
  check_with : Option (List ℕ) → Action H Polled
  check_with p = check_recv r >>= λ a. pure (packet_or p a)

  look_and_check : Action H Polled
  look_and_check = asks r.get_irq >>= λ flags.
      (if bit_and flags r.irq_rx_complete == 0 then pure none else take_packet r flags)
      >>= check_with

  -- A receive with the deadline 0 neither goes on nor ends: while the radio reports no packet
  -- `poll_recv` answers False at any time, the deadline stays, and nothing but the flags of the radio
  -- is read, so that the receive is not resumed and its end not announced.
  pub poll_recv_zero_deadline :
      (m : Modem) (h : H)
      → bit_and (r.get_irq h).0 r.irq_rx_complete == 0 ≡ true
      → poll_recv r (record { modem = record m { rx = until 0; tx = false }; hw = h }) ≡ (
        ok not_receiving,
        record { modem = record m { rx = until 0; tx = false }; hw = (r.get_irq h).1 },
      )
  unfolding poll_recv check_recv
  poll_recv_zero_deadline m h e =
      let s : State H = record {
        modem = record m { rx = until 0; tx = false };
        hw = (r.get_irq h).1;
      } in
      ap
        (λ x. elim x.0 [
          | raise e ↦ (raise e, x.1)
          | ok p ↦ (check_recv r >>= λ a. pure (packet_or p a)) x.1
        ])
        (if_true (bit_and (r.get_irq h).0 r.irq_rx_complete == 0) (pure none)
          (take_packet r (r.get_irq h).0) s e)
