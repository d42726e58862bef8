-- ===== src/Usb/Midi/Sending.antt =====
-- What `send_event` does to the bytes that wait and to the transfer that is pending.
use micropython_lib.Prelude.{
  ℕ, ◌-◌, ◌≤◌, ◌≡◌, refl, ap, sym, ◌∙◌, arith, Bool, not, ◌&&◌, ltb, ◌==◌, if◌then◌else◌, List, [],
  ◌++◌, Option, none, some, inl, inr, Bool-cases, ok, length, length-append, length-take,
}
use micropython_lib.Prelude.Slices.{append-nil}
use micropython_lib.Usb.Buffer.{Buffer, pend_write, pend_read, readable, writable}
use micropython_lib.Usb.Buffer.Queue.{IsValid}
use micropython_lib.Usb.Buffer.Calls.{filled}
use micropython_lib.Usb.Buffer.Trace.{pend_write-IsValid}
use micropython_lib.Usb.Midi.{Event, packet, Sender, is_free, tx_xfer, send_event}

-- A pending transfer lies within the bytes that wait.
abbrev pub Within : Option ℕ → ℕ → Type 0
Within none n = Unit {0}
Within (some k) n = k ≤ n

pub record IsReady (s : Sender) : Type 0 where
  pub valid : IsValid s.tx
  pub within : Within s.flight s.tx.n

Within-grows : (f : Option ℕ) (m n : ℕ) → m ≤ n → Within f m → Within f n
Within-grows none m n h w = tt
Within-grows (some k) m n h w = omega (arith, h, w)

pub same_tx : (is_open : Bool) (s : Sender) → (tx_xfer is_open s).tx ≡ s.tx
unfolding tx_xfer
same_tx is_open s = elim (Bool-cases (is_open && is_free s.flight && not (readable s.tx == 0))) [
  | inl e ↦ rw e refl
  | inr e ↦ rw e refl
]

pub tx_xfer-IsReady : (is_open : Bool) (s : Sender) → IsReady s → IsReady (tx_xfer is_open s)
unfolding tx_xfer pend_read
tx_xfer-IsReady is_open s r =
    elim (Bool-cases (is_open && is_free s.flight && not (readable s.tx == 0))) [
      | inl e ↦ rw e (record {
        valid = r.valid;
        within = omega (arith, length-take s.tx.n s.tx.b, r.valid.data_end);
      })
      | inr e ↦ rw e r
    ]

-- What `send_event` does: the packet stands behind the bytes that wait where four bytes have room,
-- and nothing does otherwise.
pub record Sent (is_open : Bool) (s : Sender) (e : Event) : Type 0 where
  pub after : Sender
  pub returns : send_event is_open s e ≡ ok (after, not (ltb (writable s.tx) 4))
  pub ready : IsReady after
  pub waiting :
      pend_read after.tx ≡ pend_read s.tx ++ (if ltb (writable s.tx) 4 then [] else packet e)

length-pend_read : (s : Buffer) → IsValid s → length (pend_read s) ≡ s.n
unfolding pend_read
length-pend_read s v = omega (arith, length-take s.n s.b, v.data_end, v.pending_start)

grown :
    (s t : Buffer) (xs : List ℕ)
    → IsValid s
    → IsValid t
    → pend_read t ≡ pend_read s ++ xs
    → s.n ≤ t.n
grown s t xs v w e =
    omega (
      arith,
      length-pend_read s v,
      length-pend_read t w,
      ap length e,
      length-append (pend_read s) xs,
    )

pub send_event-Sent : (is_open : Bool) (s : Sender) (e : Event) → IsReady s → Sent is_open s e
unfolding send_event writable pend_write pend_read
send_event-Sent is_open s e r = elim (Bool-cases (ltb (length s.tx.b - s.tx.n) 4)) [
  | inl q ↦ record {
    after = record s { tx = t };
    returns = rw (q, send_event) refl;
    ready = record { valid = pend_write-IsValid s.tx none r.valid; within = r.within };
    waiting = rw q (sym (append-nil (pend_read s.tx)));
  }
  | inr q ↦
      let m =
        filled t (packet e) 4 (pend_write-IsValid s.tx none r.valid) (ground (arith, q)) refl in
      record {
        after = tx_xfer is_open (record s { tx = m.after });
        returns = rw (q, send_event, m.returns) refl;
        ready =
            tx_xfer-IsReady is_open (record s { tx = m.after })
              (record {
                valid = m.valid;
                within =
                    Within-grows s.flight s.tx.n m.after.n
                      (grown s.tx m.after (packet e) r.valid m.valid m.waiting) r.within;
              });
        waiting = ap pend_read (same_tx is_open (record s { tx = m.after })) ∙ rw q m.waiting;
      }
]
  where
    t : Buffer
    t = (pend_write s.tx none).0
