-- ===== src/Usb/Midi/Receiving.antt =====
-- Packets of events are received as they were sent.
use micropython_lib.Prelude.{
  ℕ, ◌+◌, ◌*◌, ◌%◌, ◌<◌, ◌≤◌, ◌≡◌, refl, ap, ◌∙◌, arith, List, [], ◌∷◌, ◌++◌, ok, length, drop,
  bit_and, length-append, length-take, upto, upto_sound, ==_iff, ◌==◌, true,
}
use micropython_lib.Prelude.Slices.{drop_past}
use micropython_lib.Usb.Buffer.{Buffer, pend_read}
use micropython_lib.Usb.Buffer.Queue.{IsValid, finish_read-Becomes}
use micropython_lib.Usb.Midi.{Event, packet, read_events, on_rx}

-- A code index number of four bits and three bytes.
pub record IsEvent (e : Event) : Type 0 where
  pub code : e.cin < 16
  pub first : e.midi0 < 256
  pub second : e.midi1 < 256
  pub third : e.midi2 < 256

abbrev pub AllEvents : List Event → Type 0
AllEvents [] = Unit {0}
AllEvents (e ∷ es) = IsEvent e × AllEvents es

abbrev pub packets : List Event → List ℕ
packets [] = []
packets (e ∷ es) = packet e ++ packets es

low_table : upto (λ c. bit_and (c % 256) 15 == c) 16 ≡ true
unfolding upto
low_table = refl

low_bits : (c : ℕ) → c < 16 → bit_and (c % 256) 15 ≡ c
low_bits c h = (==_iff _ c).0 (upto_sound (λ x. bit_and (x % 256) 15 == x) 16 c low_table h)

byte : (b : ℕ) → b < 256 → b % 256 ≡ b
byte b h = omega arith

same_event :
    (e : Event)
    → IsEvent e
    → record {
      cin = bit_and (e.cin % 256) 15;
      midi0 = e.midi0 % 256;
      midi1 = e.midi1 % 256;
      midi2 = e.midi2 % 256;
    }
      ≡ e
same_event e h =
    rw (low_bits e.cin h.code, byte e.midi0 h.first, byte e.midi1 h.second, byte e.midi2 h.third)
      refl

read_events-short : (i : ℕ) (rest : List ℕ) → length rest < 4 → read_events i rest ≡ ([], i)
unfolding read_events
read_events-short i [] h = refl
read_events-short i (a ∷ []) h = refl
read_events-short i (a ∷ b ∷ []) h = refl
read_events-short i (a ∷ b ∷ c ∷ []) h = refl
read_events-short i (a ∷ b ∷ c ∷ d ∷ m) h = absurd (omega arith)

read_events-packets :
    (es : List Event) (i : ℕ) (rest : List ℕ)
    → AllEvents es
    → length rest < 4
    → read_events i (packets es ++ rest) ≡ (es, i + 4 * length es)
unfolding read_events
read_events-packets [] i rest h short =
    read_events-short i rest short ∙ ap (λ j. ([], j)) (omega arith)
read_events-packets (e ∷ es) i rest h short = rw (read_events-packets es (i + 4) rest h.1 short) (
    ap (λ x. (x ∷ es, i + 4 + 4 * length es)) (same_event e h.0)
    ∙ ap (λ j. (e ∷ es, j)) (omega arith))

read_all :
    (es : List Event) (rest : List ℕ)
    → AllEvents es
    → length rest < 4
    → read_events 0 (packets es ++ rest) ≡ (es, 4 * length es)
read_all es rest h short = read_events-packets es 0 rest h short ∙ ap (λ j. (es, j)) (omega arith)

length-packets : (es : List Event) → length (packets es) ≡ 4 * length es
length-packets [] = refl
length-packets (e ∷ es) = omega (arith, length-packets es)

packets-enough :
    (s : Buffer) (es : List Event) (rest : List ℕ)
    → pend_read s ≡ packets es ++ rest
    → 4 * length es ≤ s.n
unfolding pend_read
packets-enough s es rest e =
    omega
      (arith, length-take s.n s.b, ap length e, length-append (packets es) rest, length-packets es)

-- A buffer that `_on_rx` leaves.
pub record Received (s : Buffer) (es : List Event) (rest : List ℕ) : Type 0 where
  pub after : Buffer
  pub returns : on_rx s ≡ ok (after, es)
  pub valid : IsValid after
  pub waiting : pend_read after ≡ rest

-- Where the packets of events wait in a valid buffer, and behind them no whole packet, `_on_rx`
-- calls `on_midi_event` with each event in order and leaves what is behind the packets; of events
-- with a code index number of four bits and bytes of eight.
pub on_rx-Received :
    (s : Buffer) (es : List Event) (rest : List ℕ)
    → IsValid s
    → AllEvents es
    → length rest < 4
    → pend_read s ≡ packets es ++ rest
    → Received s es rest
unfolding on_rx
on_rx-Received s es rest v h short e =
    let m = finish_read-Becomes s (4 * length es) v (packets-enough s es rest e) in
    record {
      after = m.after;
      returns = rw (e, read_all es rest h short, m.returns) refl;
      valid = m.valid;
      waiting =
          m.waiting
          ∙ ap (drop (4 * length es)) e
          ∙ drop_past (packets es) rest (4 * length es) 0 (omega (arith, length-packets es));
    }
