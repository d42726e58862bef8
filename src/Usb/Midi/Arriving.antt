-- ===== src/Usb/Midi/Arriving.antt =====
-- What a transfer that ends, one that fails, and `_on_rx` do to a receiver.
use micropython_lib.Prelude.{
  ℕ, suc, ◌+◌, ◌-◌, ◌*◌, ◌≤◌, ◌≡◌, refl, ap, sym, ◌∙◌, arith, Bool, true, false, not, ◌&&◌, ◌==◌,
  List, ◌++◌, Option, none, some, inl, inr, Bool-cases, ok, ok-injective, length, take,
  length-append, length-take, length-drop,
}
use micropython_lib.Prelude.Slices.{append_assoc, take_split}
use micropython_lib.Usb.Buffer.{
  Buffer, pend_write, finish_write, fill, pend_read, finish_read, writable,
}
use micropython_lib.Usb.Buffer.Queue.{IsValid, pending, finish_read-Becomes}
use micropython_lib.Usb.Buffer.Calls.{filled}
use micropython_lib.Usb.Buffer.Trace.{length-fill, pend_read-fill}
use micropython_lib.Usb.Midi.{Event, Receiver, is_free, read_events, on_rx, rx_xfer, rx_cb}
use micropython_lib.Usb.Midi.Packets.{
  events_of, read_events-eq, events_of-fits, events_of-append, events_of-take,
}

abbrev pub Fits : Option ℕ → ℕ → ℕ → Type 0
Fits none w n = Unit {0}
Fits (some k) w n = w + k ≤ n

pub record IsHeard (s : Receiver) (sent : List ℕ) (es : List Event) : Type 0 where
  pub valid : IsValid s.rx
  pub fits : Fits s.flight s.rx.w (length s.rx.b)
  pub taken : List ℕ
  pub whole : length taken ≡ 4 * length es
  pub same : events_of taken ≡ es
  pub all : sent ≡ taken ++ pend_read s.rx

pub rx_xfer-IsHeard :
    (is_open : Bool) (s : Receiver) (sent : List ℕ) (es : List Event)
    → IsHeard s sent es
    → IsHeard (rx_xfer is_open s) sent es
unfolding rx_xfer pend_write pend_read
rx_xfer-IsHeard is_open s sent es o =
    elim (Bool-cases (is_open && is_free s.flight && not (writable s.rx == 0))) [
      | inl e ↦ rw e (record {
        valid = record { data_end = omega arith; pending_start = omega arith };
        fits = omega (arith, o.valid.data_end, o.valid.pending_start);
        taken = o.taken;
        whole = o.whole;
        same = o.same;
        all = o.all;
      })
      | inr e ↦ rw e o
    ]

Fits-some : (f : Option ℕ) (k w n : ℕ) → f ≡ some k → Fits f w n → w + k ≤ n
Fits-some f k w n e h = rw e at h

-- A transfer that has ended left this buffer.
ended :
    (is_open : Bool) (b : Buffer) (sent taken : List ℕ) (es : List Event)
    → IsValid b
    → length taken ≡ 4 * length es
    → events_of taken ≡ es
    → sent ≡ taken ++ pend_read b
    → IsHeard (rx_xfer is_open (record { rx = b; flight = none })) sent es
ended is_open b sent taken es v w e a =
    rx_xfer-IsHeard is_open (record { rx = b; flight = none }) sent es
      (record { valid = v; fits = tt; taken = taken; whole = w; same = e; all = a })

arrived-eq :
    (is_open : Bool) (s : Receiver) (b : Buffer) (n : ℕ)
    → finish_write s.rx n ≡ ok b
    → rx_cb is_open s 0 n ≡ ok (rx_xfer is_open (record { rx = b; flight = none }), true)
unfolding rx_cb
arrived-eq is_open s b n e = rw e refl

failed-eq :
    (is_open : Bool) (s : Receiver) (res n : ℕ)
    → rx_cb is_open s (suc res) n
      ≡ ok (rx_xfer is_open (record { rx = s.rx; flight = none }), false)
unfolding rx_cb
failed-eq is_open s res n = rw nonzero refl
  where
    nonzero : (suc res == 0) ≡ false
    nonzero = ground arith

pub arrived :
    (is_open scheduled : Bool) (s t : Receiver) (sent : List ℕ) (es : List Event) (k : ℕ)
    (xs : List ℕ)
    → IsHeard s sent es
    → s.flight ≡ some k
    → length xs ≤ k
    → rx_cb is_open (record s { rx = fill s.rx s.rx.w xs }) 0 (length xs) ≡ ok (t, scheduled)
    → IsHeard t (sent ++ xs) es
arrived is_open scheduled s t sent es k xs o f h e =
    let fits = Fits-some s.flight k s.rx.w (length s.rx.b) f o.fits in
    let m = filled s.rx xs (length xs) o.valid (omega (arith, h, fits)) refl in
    let q =
      arrived-eq is_open (record s { rx = fill s.rx s.rx.w xs }) m.after (length xs) m.returns in
    rw (ap (λ p. p.0) (ok-injective (sym e ∙ q))) (
      ended is_open m.after (sent ++ xs) o.taken es m.valid o.whole o.same (
        ap (λ b. b ++ xs) o.all
        ∙ append_assoc o.taken (pend_read s.rx) xs
        ∙ ap (λ b. o.taken ++ b) (sym m.waiting)))

fill-IsValid :
    (s : Buffer) (xs : List ℕ) → IsValid s → s.w + length xs ≤ length s.b → IsValid (fill s s.w xs)
unfolding fill
fill-IsValid s xs v h = record {
  data_end = v.data_end;
  pending_start = omega (arith, length-fill s xs v h, h);
}

pub failed :
    (is_open scheduled : Bool) (s t : Receiver) (sent : List ℕ) (es : List Event) (k res n : ℕ)
    (xs : List ℕ)
    → IsHeard s sent es
    → s.flight ≡ some k
    → length xs ≤ k
    → rx_cb is_open (record s { rx = fill s.rx s.rx.w xs }) (suc res) n ≡ ok (t, scheduled)
    → IsHeard t sent es
failed is_open scheduled s t sent es k res n xs o f h e =
    let fits = Fits-some s.flight k s.rx.w (length s.rx.b) f o.fits in
    let q = failed-eq is_open (record s { rx = fill s.rx s.rx.w xs }) res n in
    rw (ap (λ p. p.0) (ok-injective (sym e ∙ q))) (
      ended is_open (fill s.rx s.rx.w xs) sent o.taken es
        (fill-IsValid s.rx xs o.valid (omega (arith, h, fits))) o.whole o.same
        (o.all ∙ ap (λ b. o.taken ++ b) (sym (pend_read-fill s.rx xs o.valid))))

on_rx-eq :
    (s b : Buffer)
    → finish_read s (4 * length (events_of (pend_read s))) ≡ ok b
    → on_rx s ≡ ok (b, events_of (pend_read s))
unfolding on_rx
on_rx-eq s b e = rw (from_start (pend_read s), e) refl
  where
    from_start : (m : List ℕ) → read_events 0 m ≡ (events_of m, 4 * length (events_of m))
    from_start m = read_events-eq 0 m ∙ ap (λ j. (events_of m, j)) (omega arith)

length-pending : (s : Buffer) → length (pending s) ≡ length s.b - s.w
unfolding pending
length-pending s = length-drop s.w s.b

-- The start of the view stays when bytes in front of it are read.
Fits-kept :
    (f : Option ℕ) (s t : Buffer)
    → IsValid s
    → IsValid t
    → length t.b ≡ length s.b
    → pending t ≡ pending s
    → Fits f s.w (length s.b)
    → Fits f t.w (length t.b)
Fits-kept none s t v u e q h = tt
Fits-kept (some k) s t v u e q h =
    omega (
      arith,
      h,
      e,
      ap length q,
      length-pending s,
      length-pending t,
      v.pending_start,
      u.pending_start,
    )

length-pend_read : (s : Buffer) → IsValid s → length (pend_read s) ≡ s.n
unfolding pend_read
length-pend_read s v = omega (arith, length-take s.n s.b, v.data_end, v.pending_start)

pub heard :
    (s : Receiver) (b : Buffer) (sent : List ℕ) (es more : List Event)
    → IsHeard s sent es
    → on_rx s.rx ≡ ok (b, more)
    → IsHeard (record s { rx = b }) sent (es ++ more)
heard s b sent es more o e =
    let m = finish_read-Becomes s.rx i o.valid fits in
    let q = ok-injective (sym e ∙ on_rx-eq s.rx m.after m.returns) in
    rw (ap (λ p. p.0) q, ap (λ p. p.1) q)
      (record {
        valid = m.valid;
        fits = Fits-kept s.flight s.rx m.after o.valid m.valid m.size m.rest o.fits;
        taken = o.taken ++ take i queue;
        whole = omega (
          arith,
          o.whole,
          length-append o.taken (take i queue),
          length-take i queue,
          length-append es (events_of queue),
          events_of-fits queue,
        );
        same =
            events_of-append o.taken (take i queue) (length es) o.whole
            ∙ ap (λ xs. xs ++ events_of (take i queue)) o.same
            ∙ ap (λ xs. es ++ xs) (events_of-take queue);
        all =
            o.all
            ∙ ap (λ xs. o.taken ++ xs)
                (sym (take_split queue i) ∙ ap (λ xs. take i queue ++ xs) (sym m.waiting))
            ∙ sym (append_assoc o.taken (take i queue) (pend_read m.after));
      })
  where
    queue : List ℕ
    queue = pend_read s.rx

    i : ℕ
    i = 4 * length (events_of queue)

    fits : i ≤ s.rx.n
    fits = omega (arith, events_of-fits queue, length-pend_read s.rx o.valid)
