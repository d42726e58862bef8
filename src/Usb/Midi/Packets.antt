-- ===== src/Usb/Midi/Packets.antt =====
-- The events of the whole packets among some bytes.
use micropython_lib.Prelude.{
  ℕ, suc, ◌+◌, ◌-◌, ◌*◌, ◌≤◌, ◌≡◌, refl, ap, ◌∙◌, arith, List, [], ◌∷◌, ◌++◌, length, take, bit_and,
}
use micropython_lib.Usb.Midi.{Event, read_events}

-- The events of the whole packets of some bytes.
abbrev pub events_of : List ℕ → List Event
events_of (a ∷ b ∷ c ∷ d ∷ m) =
    record { cin = bit_and a 15; midi0 = b; midi1 = c; midi2 = d } ∷ events_of m
events_of m = []

pub read_events-eq :
    (i : ℕ) (m : List ℕ) → read_events i m ≡ (events_of m, i + 4 * length (events_of m))
unfolding read_events
read_events-eq i [] = ap (λ j. ([], j)) (omega arith)
read_events-eq i (a ∷ []) = ap (λ j. ([], j)) (omega arith)
read_events-eq i (a ∷ b ∷ []) = ap (λ j. ([], j)) (omega arith)
read_events-eq i (a ∷ b ∷ c ∷ []) = ap (λ j. ([], j)) (omega arith)
read_events-eq i (a ∷ b ∷ c ∷ d ∷ m) = rw (read_events-eq (i + 4) m) (
    ap (λ j. (record { cin = bit_and a 15; midi0 = b; midi1 = c; midi2 = d } ∷ events_of m, j))
      (omega arith))

pub events_of-fits : (m : List ℕ) → 4 * length (events_of m) ≤ length m
events_of-fits [] = omega arith
events_of-fits (a ∷ []) = omega arith
events_of-fits (a ∷ b ∷ []) = omega arith
events_of-fits (a ∷ b ∷ c ∷ []) = omega arith
events_of-fits (a ∷ b ∷ c ∷ d ∷ m) = omega (arith, events_of-fits m)

pub events_of-append :
    (c m : List ℕ) (k : ℕ) → length c ≡ 4 * k → events_of (c ++ m) ≡ events_of c ++ events_of m
events_of-append [] m k e = refl
events_of-append (x ∷ []) m k e = absurd (omega (arith, e))
events_of-append (x ∷ y ∷ []) m k e = absurd (omega (arith, e))
events_of-append (x ∷ y ∷ z ∷ []) m k e = absurd (omega (arith, e))
events_of-append (x ∷ y ∷ z ∷ w ∷ c) m k e =
    ap (λ es. record { cin = bit_and x 15; midi0 = y; midi1 = z; midi2 = w } ∷ es)
      (events_of-append c m (k - 1) (omega (arith, e)))

pub events_of-take : (m : List ℕ) → events_of (take (4 * length (events_of m)) m) ≡ events_of m
events_of-take [] = refl
events_of-take (a ∷ []) = refl
events_of-take (a ∷ b ∷ []) = refl
events_of-take (a ∷ b ∷ c ∷ []) = refl
events_of-take (a ∷ b ∷ c ∷ d ∷ m) =
    ap (λ n. events_of (take n (a ∷ b ∷ c ∷ d ∷ m)))
      {y = suc (suc (suc (suc (4 * length (events_of m)))))} (omega arith)
    ∙ ap (λ es. record { cin = bit_and a 15; midi0 = b; midi1 = c; midi2 = d } ∷ es)
        (events_of-take m)
