-- ===== src/Lora/Modem/Tests.antt =====
-- Runs of the modem over a scripted radio, and its theorems at concrete states.
use micropython_lib.Prelude.{ℕ, ◌≡◌, refl, true, false, [], ◌∷◌, some, ok, ◌==◌}
use micropython_lib.Prelude.Int.{sub_ℕ}
use micropython_lib.Lora.Modem.{
  Modem, Radio, State, off, on, until, sent_at, not_sending, not_receiving, poll_recv, poll_send,
  packet, check_recv, check_idle, take_packet, end_recv, ant_idle, get_last_irq, resume, start_recv,
  base_start_recv, deadline,
}
use micropython_lib.Lora.Modem.Receiving.{poll_recv_zero_deadline}
use micropython_lib.Lora.Modem.Sending.{poll_send_once}

polls : Unit {0}
unfolding poll_recv poll_send check_recv check_idle take_packet end_recv ant_idle get_last_irq
    resume start_recv base_start_recv deadline
polls = tt

-- The interrupt flags of the radio, the clock, and how often a soft interrupt was scheduled.
record Chip : Type 0 where
  flags : ℕ
  clock : ℕ
  scheduled : ℕ

-- A radio that has left its mode, with bit 0 for a received and bit 1 for a sent packet.
abbrev chip : Radio Chip
chip = record {
  standby = λ h. h;
  is_idle = λ h. (true, h);
  get_irq = λ h. (h.flags, h);
  clear_irq = λ n h. record h { flags = 0 };
  rx_flags_success = λ n. n == 1;
  read_packet = λ n h. (7 ∷ 8 ∷ [], h);
  begin_recv = λ t c n h. h;
  ant_idle = λ h. h;
  ant_rx = λ h. h;
  irq_callback = λ h. h;
  schedule = λ h. record h { scheduled = 1 };
  ticks_ms = λ h. (h.clock, h);
  ticks_add = λ a b. 1000;
  ticks_diff = λ a b. sub_ℕ a b;
  irq_rx_complete = 1;
  irq_tx_complete = 2;
  irq_all = 3;
}

abbrev modem : Modem
modem = record {
  rx = until 500;
  rx_continuous = false;
  rx_length = 255;
  tx = false;
  last_irq = some 420;
  crc_errors = 0;
  rx_crc_error = false;
  has_ant_sw = true;
  has_callback = false;
}

abbrev waiting : State Chip
waiting = record { modem = modem; hw = record { flags = 1; clock = 400; scheduled = 0 } }

abbrev too_late : State Chip
too_late = record { modem = modem; hw = record { flags = 0; clock = 600; scheduled = 0 } }

abbrev sent : State Chip
sent = record {
  modem = record modem { rx = on; rx_continuous = true; tx = true };
  hw = record { flags = 2; clock = 430; scheduled = 0 };
}

abbrev done : State Chip
done = record {
  modem = record modem { rx = on; rx_continuous = true; tx = false };
  hw = record { flags = 0; clock = 430; scheduled = 0 };
}

received : poll_recv chip waiting ≡ (
  ok (packet (7 ∷ 8 ∷ [])),
  record {
    modem = record modem { rx = off };
    hw = record { flags = 0; clock = 400; scheduled = 0 };
  },
)
unfolding polls
received = refl

timed_out : poll_recv chip too_late ≡ (
  ok not_receiving,
  record {
    modem = record modem { rx = off };
    hw = record { flags = 0; clock = 600; scheduled = 1 };
  },
)
unfolding polls
timed_out = refl

send_ended : poll_send chip sent ≡ (ok (sent_at 420), done)
unfolding polls
send_ended = refl

poll_recv_zero_deadline_example :
    poll_recv chip (record {
      modem = record modem { rx = until 0; tx = false };
      hw = record { flags = 0; clock = 600; scheduled = 0 };
    })
    ≡ (
      ok not_receiving,
      record {
        modem = record modem { rx = until 0; tx = false };
        hw = record { flags = 0; clock = 600; scheduled = 0 };
      },
    )
poll_recv_zero_deadline_example =
    poll_recv_zero_deadline chip modem (record { flags = 0; clock = 600; scheduled = 0 }) refl

poll_send_once_example : poll_send chip done ≡ (ok not_sending, done)
poll_send_once_example =
    poll_send_once chip sent done 420 (λ t e. absurd (no_deadline t e)) send_ended
  where
    no_deadline : (t : ℕ) → on ≡ until t → ⊥
    no_deadline t e = cc
