-- ===== src/Usb/Midi/Trace.antt =====
-- Events are sent to the host in order, whatever the order of calls, transfers and failures.
use micropython_lib.Prelude.{
  ℕ, suc, ◌≤◌, ◌≡◌, refl, ap, sym, ◌∙◌, arith, Bool, true, false, not, ltb, ◌==◌, if◌then◌else◌,
  List, [], ◌++◌, Option, none, some, ok, ok-injective, take, drop,
}
use micropython_lib.Prelude.Slices.{append_assoc, length-replicate, take-take, take_split}
use micropython_lib.Usb.Buffer.{Buffer, new, pend_read, writable}
use micropython_lib.Usb.Buffer.Queue.{IsValid, finish_read-Becomes}
use micropython_lib.Usb.Midi.{Event, packet, Sender, tx_xfer, send_event, tx_cb}
use micropython_lib.Usb.Midi.Sending.{Within, IsReady, same_tx, tx_xfer-IsReady, send_event-Sent}

-- What can happen to a sender, with the bytes of the events that were accepted and those that the
-- host got. A transfer that ends without an error gave the host the first bytes of the view, as they
-- are when it ends; one that failed gave it none that it keeps.
pub data Reaches : Sender → List ℕ → List ℕ → Type 0 where
  start : (size : ℕ) → Reaches (record { tx = new size; flight = none }) [] []
  sends :
      {s t : Sender} {sent got : List ℕ} (is_open : Bool) (e : Event) (accepted : Bool)
      → Reaches s sent got
      → send_event is_open s e ≡ ok (t, accepted)
      → Reaches t (sent ++ (if accepted then packet e else [])) got
  completes :
      {s t : Sender} {sent got : List ℕ} (is_open : Bool) (k num_bytes : ℕ)
      → Reaches s sent got
      → s.flight ≡ some k
      → num_bytes ≤ k
      → tx_cb is_open s 0 num_bytes ≡ ok t
      → Reaches t sent (got ++ take num_bytes s.tx.b)
  fails :
      {s t : Sender} {sent got : List ℕ} (is_open : Bool) (res num_bytes : ℕ)
      → Reaches s sent got
      → tx_cb is_open s (suc res) num_bytes ≡ ok t
      → Reaches t sent got
  opens : {s : Sender} {sent got : List ℕ} → Reaches s sent got → Reaches (tx_xfer true s) sent got
  resets :
      {s : Sender} {sent got : List ℕ}
      → Reaches s sent got
      → Reaches (record s { flight = none }) sent got

-- The bytes that the host got and then those that wait are those of the events.
record IsInOrder (s : Sender) (sent got : List ℕ) : Type 0 where
  ready : IsReady s
  all : sent ≡ got ++ pend_read s.tx

new-IsValid : (size : ℕ) → IsValid (new size)
unfolding new
new-IsValid size = record {
  data_end = omega arith;
  pending_start = omega (arith, length-replicate size 0);
}

tx_xfer-IsInOrder :
    (is_open : Bool) (s : Sender) (sent got : List ℕ)
    → IsInOrder s sent got
    → IsInOrder (tx_xfer is_open s) sent got
tx_xfer-IsInOrder is_open s sent got o = record {
  ready = tx_xfer-IsReady is_open s o.ready;
  all = o.all ∙ ap (λ b. got ++ pend_read b) (sym (same_tx is_open s));
}

Within-some : (f : Option ℕ) (k n : ℕ) → f ≡ some k → Within f n → k ≤ n
Within-some f k n e w = rw e at w

taken :
    (s t : Buffer) (n : ℕ)
    → n ≤ s.n
    → pend_read t ≡ drop n (pend_read s)
    → pend_read s ≡ take n s.b ++ pend_read t
unfolding pend_read
taken s t n h e =
    sym (take_split (take s.n s.b) n)
    ∙ ap (λ x. x ++ drop n (take s.n s.b)) (take-take s.b n s.n h)
    ∙ ap (λ x. take n s.b ++ x) (sym e)

completed :
    (is_open : Bool) (s t : Sender) (sent got : List ℕ) (k n : ℕ)
    → IsInOrder s sent got
    → s.flight ≡ some k
    → n ≤ k
    → tx_cb is_open s 0 n ≡ ok t
    → IsInOrder t sent (got ++ take n s.tx.b)
unfolding tx_cb
completed is_open s t sent got k n o f h e =
    let fits = Within-some s.flight k s.tx.n f o.ready.within in
    let m = finish_read-Becomes s.tx n o.ready.valid (omega (arith, h, fits)) in
    let u : Sender = record { tx = m.after; flight = none } in
    let same : tx_xfer is_open u ≡ t = ok-injective (rw m.returns at e) in
    rw (sym same) (
      tx_xfer-IsInOrder is_open u sent (got ++ take n s.tx.b) (record {
        ready = record { valid = m.valid; within = tt };
        all =
            o.all
            ∙ ap (λ x. got ++ x) (taken s.tx m.after n (omega (arith, h, fits)) m.waiting)
            ∙ sym (append_assoc got (take n s.tx.b) (pend_read m.after));
      }))

failed-eq :
    (is_open : Bool) (s : Sender) (res n : ℕ)
    → tx_cb is_open s (suc res) n ≡ ok (tx_xfer is_open (record { tx = s.tx; flight = none }))
unfolding tx_cb
failed-eq is_open s res n = rw nonzero refl
  where
    nonzero : (suc res == 0) ≡ false
    nonzero = ground arith

failed :
    (is_open : Bool) (s t : Sender) (sent got : List ℕ) (res n : ℕ)
    → IsInOrder s sent got
    → tx_cb is_open s (suc res) n ≡ ok t
    → IsInOrder t sent got
failed is_open s t sent got res n o e =
    rw (sym (ok-injective (sym (failed-eq is_open s res n) ∙ e))) (
      tx_xfer-IsInOrder is_open (record { tx = s.tx; flight = none }) sent got
        (record { ready = record { valid = o.ready.valid; within = tt }; all = o.all }))

queued :
    (is_open : Bool) (s t : Sender) (x : Event) (accepted : Bool) (sent got : List ℕ)
    → IsInOrder s sent got
    → send_event is_open s x ≡ ok (t, accepted)
    → IsInOrder t (sent ++ (if accepted then packet x else [])) got
queued is_open s t x accepted sent got o e =
    let m = send_event-Sent is_open s x o.ready in
    let same = ok-injective (sym m.returns ∙ e) in
    rw (sym (ap (λ p. p.0) same), sym (ap (λ p. p.1) same))
      (record {
        ready = m.ready;
        all =
            ap (λ b. b ++ (if not (ltb (writable s.tx) 4) then packet x else [])) o.all
            ∙ append_assoc got (pend_read s.tx) _
            ∙ ap (λ b. got ++ b)
                (ap (λ b. pend_read s.tx ++ b) (turned (ltb (writable s.tx) 4)) ∙ sym m.waiting);
      })
  where
    turned : (b : Bool) → (if not b then packet x else []) ≡ (if b then [] else packet x)
    turned true = refl
    turned false = refl

new-IsInOrder : (size : ℕ) → IsInOrder (record { tx = new size; flight = none }) [] []
unfolding new pend_read
new-IsInOrder size = record { ready = record { valid = new-IsValid size; within = tt }; all = refl }

in_order : {s : Sender} {sent got : List ℕ} → Reaches s sent got → IsInOrder s sent got
in_order (start size) = new-IsInOrder size
in_order (sends o x accepted r e) = queued o _ _ x accepted _ _ (in_order r) e
in_order (completes o k n r f h e) = completed o _ _ _ _ k n (in_order r) f h e
in_order (fails o res n r e) = failed o _ _ _ _ res n (in_order r) e
in_order (opens r) = tx_xfer-IsInOrder true _ _ _ (in_order r)
in_order (resets r) =
    let o = in_order r in
    record { ready = record { valid = o.ready.valid; within = tt }; all = o.all }

-- In every order of events, transfers that end or fail, and resets, the bytes that the host got and
-- then those that wait are the packets of the events for which `send_event` returned True, in
-- order; a transfer never covers bytes that are still to be written.
pub Reaches_in_order :
    (s : Sender) (sent got : List ℕ)
    → Reaches s sent got
    → (sent ≡ got ++ pend_read s.tx) × Within s.flight s.tx.n
Reaches_in_order s sent got r = let o = in_order r in (o.all, o.ready.within)
