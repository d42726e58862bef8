-- ===== src/Usb/Midi/Heard.antt =====
-- Events are received in order, whatever the order of transfers, failures and calls of `_on_rx`.
use micropython_lib.Prelude.{
  ℕ, suc, ◌*◌, ◌≤◌, ◌≡◌, refl, arith, Bool, true, List, [], ◌++◌, none, some, ok, length,
}
use micropython_lib.Prelude.Slices.{length-replicate}
use micropython_lib.Usb.Buffer.{Buffer, new, fill, pend_read}
use micropython_lib.Usb.Midi.{Event, Receiver, on_rx, rx_xfer, rx_cb}
use micropython_lib.Usb.Midi.Packets.{events_of}
use micropython_lib.Usb.Midi.Arriving.{IsHeard, rx_xfer-IsHeard, arrived, failed, heard}

-- What can happen to a receiver, with the bytes that came from the host and the events that
-- `on_midi_event` was called with. The host writes into the view of the pending transfer, also where
-- the transfer fails.
pub data Hears : Receiver → List ℕ → List Event → Type 0 where
  start : (size : ℕ) → Hears (record { rx = new size; flight = none }) [] []
  arrives :
      {s t : Receiver} {sent : List ℕ} {es : List Event} (is_open scheduled : Bool) (k : ℕ)
      (xs : List ℕ)
      → Hears s sent es
      → s.flight ≡ some k
      → length xs ≤ k
      → rx_cb is_open (record s { rx = fill s.rx s.rx.w xs }) 0 (length xs) ≡ ok (t, scheduled)
      → Hears t (sent ++ xs) es
  fails :
      {s t : Receiver} {sent : List ℕ} {es : List Event} (is_open scheduled : Bool)
      (k res num_bytes : ℕ) (xs : List ℕ)
      → Hears s sent es
      → s.flight ≡ some k
      → length xs ≤ k
      → rx_cb is_open (record s { rx = fill s.rx s.rx.w xs }) (suc res) num_bytes
        ≡ ok (t, scheduled)
      → Hears t sent es
  reads :
      {s : Receiver} {b : Buffer} {sent : List ℕ} {es more : List Event}
      → Hears s sent es
      → on_rx s.rx ≡ ok (b, more)
      → Hears (record s { rx = b }) sent (es ++ more)
  opens :
      {s : Receiver} {sent : List ℕ} {es : List Event}
      → Hears s sent es
      → Hears (rx_xfer true s) sent es
  resets :
      {s : Receiver} {sent : List ℕ} {es : List Event}
      → Hears s sent es
      → Hears (record s { flight = none }) sent es

new-IsHeard : (size : ℕ) → IsHeard (record { rx = new size; flight = none }) [] []
unfolding new pend_read
new-IsHeard size = record {
  valid = record { data_end = omega arith; pending_start = omega (arith, length-replicate size 0) };
  fits = tt;
  taken = [];
  whole = omega arith;
  same = refl;
  all = refl;
}

Hears-IsHeard :
    {s : Receiver} {sent : List ℕ} {es : List Event} → Hears s sent es → IsHeard s sent es
Hears-IsHeard (start size) = new-IsHeard size
Hears-IsHeard (arrives o c k xs r f h e) = arrived o c _ _ _ _ k xs (Hears-IsHeard r) f h e
Hears-IsHeard (fails o c k res n xs r f h e) = failed o c _ _ _ _ k res n xs (Hears-IsHeard r) f h e
Hears-IsHeard (reads r e) = heard _ _ _ _ _ (Hears-IsHeard r) e
Hears-IsHeard (opens r) = rx_xfer-IsHeard true _ _ _ (Hears-IsHeard r)
Hears-IsHeard (resets r) =
    let o = Hears-IsHeard r in
    record {
      valid = o.valid;
      fits = tt;
      taken = o.taken;
      whole = o.whole;
      same = o.same;
      all = o.all;
    }

-- In every order of transfers that end or fail, calls of `_on_rx`, and resets, the bytes that came by
-- transfers that ended without an error are some whole packets and then the bytes that wait;
-- `on_midi_event` was called with the events of these packets, once each and in order.
pub Hears_in_order :
    (s : Receiver) (sent : List ℕ) (es : List Event)
    → Hears s sent es
    → (taken : List ℕ) × (length taken ≡ 4 * length es)
      × (events_of taken ≡ es)
      × (sent ≡ taken ++ pend_read s.rx)
Hears_in_order s sent es r = let o = Hears-IsHeard r in (o.taken, o.whole, o.same, o.all)
