-- ===== src/Usb/Midi.antt =====
-- The class MIDIInterface of micropython/usb/usb-device-midi/usb/device/midi.py: MIDI events are
-- queued as packets of four bytes in the buffer of the IN endpoint, which the host reads by
-- transfers, and are taken from the buffer of the OUT endpoint. The lower layer accepts each transfer
-- that is submitted; a transfer is pending from then until its callback.
pub mod Sending
pub mod Trace
pub mod Receiving
pub mod Packets
pub mod Arriving
pub mod Heard
mod Tests
use micropython_lib.Prelude.{
  ℕ, zero, suc, ◌+◌, ◌%◌, Bool, true, false, not, ◌&&◌, ltb, ◌==◌, if◌then◌else◌, List, [], ◌∷◌,
  Option, none, some, Result, ok, ◌>>=◌, length, bit_and,
}
use micropython_lib.Usb.Buffer.{
  Buffer, new, pend_write, finish_write, fill, pend_read, finish_read, readable, writable,
}

-- The arguments of `send_event` and of `on_midi_event`.
pub record Event : Type 0 where
  pub cin : ℕ
  pub midi0 : ℕ
  pub midi1 : ℕ
  pub midi2 : ℕ

-- The assignments to the view; a byte keeps eight bits.
abbrev pub packet : Event → List ℕ
packet e = e.cin % 256 ∷ e.midi0 % 256 ∷ e.midi1 % 256 ∷ e.midi2 % 256 ∷ []

-- `_tx`, and the size of the transfer that is pending on `ep_in`, from the start of the buffer.
pub record Sender : Type 0 where
  pub tx : Buffer
  pub flight : Option ℕ

is_free : Option ℕ → Bool
is_free none = true
is_free (some k) = false

unfoldable pub tx_xfer : Bool → Sender → Sender
unfolding is_free
tx_xfer is_open s =
    if is_open && is_free s.flight && not (readable s.tx == 0)
    then record s { flight = some (length (pend_read s.tx)) }
    else s

unfoldable pub send_event : Bool → Sender → Event → Result (Sender × Bool)
send_event is_open s e =
    let (t, view) = pend_write s.tx none in
    if ltb view.size 4 then ok (record s { tx = t }, false) else do
      u ← finish_write (fill t view.start (packet e)) 4
      ok (tx_xfer is_open (record s { tx = u }), true)

-- The device has ended the transfer before it calls this.
unfoldable pub tx_cb : Bool → Sender → ℕ → ℕ → Result Sender
tx_cb is_open s res num_bytes = do
  t ← (if res == 0 then finish_read s.tx num_bytes else ok s.tx)
  ok (tx_xfer is_open (record { tx = t; flight = none }))

-- The loop of `_on_rx` from `i` on: what `on_midi_event` is called with, and the last `i`.
unfoldable pub read_events : ℕ → List ℕ → List Event × ℕ
read_events i (a ∷ b ∷ c ∷ d ∷ m) =
    let (es, j) = read_events (i + 4) m in
    (record { cin = bit_and a 15; midi0 = b; midi1 = c; midi2 = d } ∷ es, j)
read_events i m = ([], i)

unfoldable pub on_rx : Buffer → Result (Buffer × List Event)
on_rx s = let (es, i) = read_events 0 (pend_read s) in do t ← finish_read s i; ok (t, es)

-- `_rx`, and the size of the view whose transfer is pending on `ep_out`; the view starts at `_w`.
pub record Receiver : Type 0 where
  pub rx : Buffer
  pub flight : Option ℕ

unfoldable pub rx_xfer : Bool → Receiver → Receiver
unfolding is_free
rx_xfer is_open s =
    if is_open && is_free s.flight && not (writable s.rx == 0)
    then record { rx = (pend_write s.rx none).0; flight = some (pend_write s.rx none).1.size }
    else s

-- Whether `_on_rx` is scheduled stands beside the state.
unfoldable pub rx_cb : Bool → Receiver → ℕ → ℕ → Result (Receiver × Bool)
rx_cb is_open s res num_bytes = do
  t ← (if res == 0 then finish_write s.rx num_bytes else ok s.rx)
  ok (rx_xfer is_open (record { rx = t; flight = none }), res == 0)

-- What `on_midi_event` calls.
pub data Note : Type 0 where
  on_note_on : ℕ → ℕ → ℕ → Note
  on_note_off : ℕ → ℕ → ℕ → Note
  on_control_change : ℕ → ℕ → ℕ → Note

unfoldable pub on_midi_event : Event → Option Note
on_midi_event e =
    let ch = bit_and e.midi0 15 in
    if e.cin == 9
    then some (on_note_on ch e.midi1 e.midi2)
    else if e.cin == 8
    then some (on_note_off ch e.midi1 e.midi2)
    else if e.cin == 11
    then some (on_control_change ch e.midi1 e.midi2)
    else none
