-- ===== src/Usb/Midi/Tests.antt =====
-- Runs of the MIDI interface, and its theorems at concrete values.
use micropython_lib.Prelude.{
  ℕ, List, ◌*◌, length, ◌≡◌, refl, arith, true, false, [], ◌∷◌, ◌++◌, take, none, some, ok,
}
use micropython_lib.Usb.Buffer.{
  writable, Buffer, new, pend_write, finish_write, fill, pend_read, finish_read, readable,
  copy_byte, shift,
}
use micropython_lib.Usb.Midi.{
  on_rx, read_events, Receiver, rx_xfer, rx_cb, Event, Sender, packet, tx_xfer, send_event, tx_cb,
  on_midi_event, on_note_on,
}
use micropython_lib.Usb.Midi.Sending.{Within}
use micropython_lib.Usb.Midi.Packets.{events_of}
use micropython_lib.Usb.Midi.Heard
use micropython_lib.Usb.Midi.Heard.{Hears, Hears_in_order}
use micropython_lib.Usb.Midi.Trace.{Reaches, start, sends, completes, Reaches_in_order}
use micropython_lib.Usb.Midi.Receiving.{Received, on_rx-Received}

-- `note_on(2, 60)`
abbrev key_down : Event
key_down = record { cin = 9; midi0 = 146; midi1 = 60; midi2 = 64 }

abbrev key_up : Event
key_up = record { cin = 8; midi0 = 130; midi1 = 60; midi2 = 64 }

key_down_run : on_midi_event key_down ≡ some (on_note_on 2 60 64)
unfolding on_midi_event
key_down_run = refl

-- Six bytes of room hold one packet.
abbrev waits : Sender
waits = record { tx = record { b = 9 ∷ 146 ∷ 60 ∷ 64 ∷ 0 ∷ 0 ∷ []; n = 4; w = 6 }; flight = some 4 }

abbrev refused : Sender
refused = record {
  tx = record { b = 9 ∷ 146 ∷ 60 ∷ 64 ∷ 0 ∷ 0 ∷ []; n = 4; w = 4 };
  flight = some 4;
}

sent_run : send_event true (record { tx = new 6; flight = none }) key_down ≡ ok (waits, true)
unfolding send_event new pend_write finish_write fill tx_xfer readable pend_read
sent_run = refl

refused_run : send_event true waits key_up ≡ ok (refused, false)
unfolding send_event pend_write
refused_run = refl

abbrev drained : Sender
drained = record {
  tx = record { b = 60 ∷ 64 ∷ 60 ∷ 64 ∷ 0 ∷ 0 ∷ []; n = 2; w = 4 };
  flight = some 2;
}

-- The host took half of the packet.
drained_run : tx_cb true refused 0 2 ≡ ok drained
unfolding tx_cb finish_read shift copy_byte tx_xfer readable pend_read
drained_run = refl

drained-Reaches : Reaches drained (([] ++ packet key_down) ++ []) ([] ++ take 2 refused.tx.b)
drained-Reaches =
    completes true 4 2
      (sends true key_up false (sends true key_down true (start 6) sent_run) refused_run) refl
      (omega arith) drained_run

Reaches_in_order_example :
    ((([] ++ packet key_down) ++ []) ≡ ([] ++ take 2 refused.tx.b) ++ pend_read drained.tx)
    × Within drained.flight drained.tx.n
Reaches_in_order_example = Reaches_in_order drained _ _ drained-Reaches

-- A packet, and one of which two bytes have come.
abbrev heard : Buffer
heard = record { b = 9 ∷ 146 ∷ 60 ∷ 64 ∷ 8 ∷ 130 ∷ 0 ∷ []; n = 6; w = 7 }

on_rx-Received_example : Received heard (key_down ∷ []) (8 ∷ 130 ∷ [])
unfolding pend_read
on_rx-Received_example =
    on_rx-Received heard (key_down ∷ []) (8 ∷ 130 ∷ [])
      (record { data_end = omega arith; pending_start = omega arith })
      (
        record {
          code = omega arith;
          first = omega arith;
          second = omega arith;
          third = omega arith;
        },
        tt,
      )
      (omega arith) refl

-- A packet and half of the next one come in one transfer, then the packet is handled.
abbrev came : Receiver
came = record {
  rx = record { b = 9 ∷ 146 ∷ 60 ∷ 64 ∷ 8 ∷ 130 ∷ 0 ∷ 0 ∷ []; n = 6; w = 6 };
  flight = some 2;
}

came_run :
    rx_cb true
      (record (rx_xfer true (record { rx = new 8; flight = none })) {
        rx =
            fill
              (rx_xfer true (record { rx = new 8; flight = none })).rx
              0
              (9 ∷ 146 ∷ 60 ∷ 64 ∷ 8 ∷ 130 ∷ []);
      })
      0
      6
    ≡ ok (came, true)
unfolding rx_cb rx_xfer new fill finish_write pend_write writable
came_run = refl

abbrev handled : Buffer
handled = record { b = 8 ∷ 130 ∷ 60 ∷ 64 ∷ 8 ∷ 130 ∷ 0 ∷ 0 ∷ []; n = 2; w = 6 }

handled_run : on_rx came.rx ≡ ok (handled, key_down ∷ [])
unfolding on_rx read_events finish_read shift copy_byte pend_read
handled_run = refl

handled-Hears :
    Hears
      (record { rx = handled; flight = some 2 })
      ([] ++ 9 ∷ 146 ∷ 60 ∷ 64 ∷ 8 ∷ 130 ∷ [])
      ([] ++ key_down ∷ [])
unfolding rx_xfer new pend_write writable
handled-Hears =
    Heard.reads
      (Heard.arrives true true 8 (9 ∷ 146 ∷ 60 ∷ 64 ∷ 8 ∷ 130 ∷ []) (Heard.opens (Heard.start 8))
        refl (omega arith) came_run)
      handled_run

Hears_in_order_example :
    (taken : List ℕ) × (length taken ≡ 4 * length ([] ++ key_down ∷ []))
    × (events_of taken ≡ [] ++ key_down ∷ [])
    × ([] ++ 9 ∷ 146 ∷ 60 ∷ 64 ∷ 8 ∷ 130 ∷ [] ≡ taken ++ pend_read handled)
Hears_in_order_example = Hears_in_order (record { rx = handled; flight = some 2 }) _ _ handled-Hears
