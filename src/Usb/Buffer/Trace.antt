-- ===== src/Usb/Buffer/Trace.antt =====
-- `Buffer` between a producer and a consumer whose calls interleave in any order.
use micropython_lib.Prelude.{
  ℕ, ◌+◌, ◌-◌, ◌≤◌, ◌≡◌, refl, ap, sym, ◌∙◌, ◌++◌, List, [], Option, ok, ok-injective, length, take,
  drop, arith, length-take, length-drop, length-append,
}
use micropython_lib.Usb.Buffer.{Buffer, new, pend_write, finish_write, fill, pend_read, finish_read}
use micropython_lib.Prelude.Slices.{
  append_assoc, length-replicate, take-append_left, drop-append_all, take-take, take_split,
  take_past, drop-take, drop-drop,
}
use micropython_lib.Usb.Buffer.Queue.{
  IsValid, pending, finish_write-Becomes, finish_read-Becomes, fits-finish_write, fits-finish_read,
}

pub pend_write-IsValid : (s : Buffer) (wmax : Option ℕ) → IsValid s → IsValid (pend_write s wmax).0
unfolding pend_write
pend_write-IsValid s wmax v = record { data_end = omega arith; pending_start = omega arith }

-- Writing into the memoryview of a pending write leaves the bytes that wait, and puts the new bytes
-- in front of the pending write.
pub length-fill :
    (s : Buffer) (xs : List ℕ)
    → IsValid s
    → s.w + length xs ≤ length s.b
    → length (fill s s.w xs).b ≡ length s.b
unfolding fill
length-fill s xs v h = omega (
  arith,
  length-append (take s.w s.b) (xs ++ drop (s.w + length xs) s.b),
  length-append xs (drop (s.w + length xs) s.b),
  length-take s.w s.b,
  length-drop (s.w + length xs) s.b,
)

pub pend_read-fill :
    (s : Buffer) (xs : List ℕ) → IsValid s → pend_read (fill s s.w xs) ≡ pend_read s
unfolding fill pend_read
pend_read-fill s xs v =
    take-append_left (take s.w s.b) _ s.n (omega (arith, length-take s.w s.b))
    ∙ take-take s.b s.n s.w v.data_end

pub pending-fill :
    (s : Buffer) (xs : List ℕ)
    → IsValid s
    → pending (fill s s.w xs) ≡ xs ++ drop (s.w + length xs) s.b
unfolding fill pending
pending-fill s xs v =
    ap (λ k. drop k (take s.w s.b ++ (xs ++ drop (s.w + length xs) s.b)))
      (omega (arith, length-take s.w s.b))
    ∙ drop-append_all (take s.w s.b) (xs ++ drop (s.w + length xs) s.b)

-- The buffer, the bytes that the producer has put into its view since `pend_write`, all bytes that it
-- has committed by `finish_write`, and all bytes that the consumer has taken by `finish_read`.
pub record Trace : Type 0 where
  pub buffer : Buffer
  pub filled : List ℕ
  pub sent : List ℕ
  pub received : List ℕ

abbrev trace : Buffer → List ℕ → List ℕ → List ℕ → Trace
trace s v i o = record { buffer = s; filled = v; sent = i; received = o }

-- The calls of the producer and of the consumer. The producer writes into the memoryview, which
-- starts at `_w`, any number of times, and commits no more than it has written; the consumer reads
-- what it takes.
pub data Step : Trace → Trace → Type 0 where
  pends :
      (s : Buffer) (v i o : List ℕ) (wmax : Option ℕ)
      → Step (trace s v i o) (trace (pend_write s wmax).0 [] i o)
  fills :
      (s : Buffer) (v i o xs : List ℕ)
      → s.w + length xs ≤ length s.b
      → Step (trace s v i o) (trace (fill s s.w xs) (xs ++ drop (length xs) v) i o)
  commits :
      (s t : Buffer) (v i o : List ℕ) (k : ℕ)
      → k ≤ length v
      → finish_write s k ≡ ok t
      → Step (trace s v i o) (trace t [] (i ++ take k v) o)
  takes :
      (s t : Buffer) (v i o : List ℕ) (k : ℕ)
      → finish_read s k ≡ ok t
      → Step (trace s v i o) (trace t v i (o ++ take k (pend_read s)))

pub data Reaches : Trace → Trace → Type 0 where
  start : (a : Trace) → Reaches a a
  next : (a b c : Trace) → Reaches a b → Step b c → Reaches a c

abbrev pub fresh : ℕ → Trace
fresh size = record { buffer = new size; filled = []; sent = []; received = [] }

-- What is received and what waits is what was sent, in this order, and the pending write starts with
-- what the producer has put there.
pub record InOrder (a : Trace) : Type 0 where
  pub valid : IsValid a.buffer
  pub accounted : a.received ++ pend_read a.buffer ≡ a.sent
  pub kept : take (length a.filled) (pending a.buffer) ≡ a.filled

InOrder-fresh : (size : ℕ) → InOrder (fresh size)
unfolding new pend_read
InOrder-fresh size = record {
  valid = record { data_end = omega arith; pending_start = omega (arith, length-replicate size 0) };
  accounted = refl;
  kept = refl;
}

drop-pending : (s : Buffer) (n : ℕ) → drop n (pending s) ≡ drop (s.w + n) s.b
unfolding pending
drop-pending s n = drop-drop s.b s.w n (s.w + n) refl

-- New bytes over the first ones of the view.
refilled :
    (s : Buffer) (v xs : List ℕ)
    → IsValid s
    → take (length v) (pending s) ≡ v
    → take (length (xs ++ drop (length xs) v)) (pending (fill s s.w xs)) ≡ xs ++ drop (length xs) v
refilled s v xs valid e =
    ap (take (length (xs ++ drop (length xs) v))) (pending-fill s xs valid)
    ∙ take_past xs (drop (s.w + length xs) s.b) (length (xs ++ drop (length xs) v))
        (length v - length xs)
        (omega (arith, length-append xs (drop (length xs) v), length-drop (length xs) v))
    ∙ ap (λ ys. xs ++ ys)
        (ap (take (length v - length xs)) (sym (drop-pending s (length xs)))
          ∙ sym (drop-take (pending s) (length xs) (length v))
          ∙ ap (drop (length xs)) e)

InOrder-Step : (a b : Trace) → Step a b → InOrder a → InOrder b
unfolding pend_write pend_read fill
InOrder-Step _ _ (pends s v i o wmax) h = record {
  valid = pend_write-IsValid s wmax h.valid;
  accounted = h.accounted;
  kept = refl;
}
InOrder-Step _ _ (fills s v i o xs g) h = record {
  valid = record {
    data_end = h.valid.data_end;
    pending_start = omega (arith, length-fill s xs h.valid g, h.valid.pending_start);
  };
  accounted = ap (λ q. o ++ q) (pend_read-fill s xs h.valid) ∙ h.accounted;
  kept = refilled s v xs h.valid h.kept;
}
InOrder-Step _ _ (commits s t v i o k g e) h =
    let m = finish_write-Becomes s k h.valid (fits-finish_write s t k e) in
    let same = ok-injective (sym m.returns ∙ e) in
    record {
      valid = rw (← same) m.valid;
      accounted =
          ap (λ u. o ++ pend_read u) (sym same)
          ∙ ap (λ q. o ++ q) m.waiting
          ∙ sym (append_assoc o (pend_read s) (take k (pending s)))
          ∙ ap (λ q. q ++ take k (pending s)) h.accounted
          ∙ ap (λ q. i ++ q) (sym (take-take (pending s) k (length v) g) ∙ ap (take k) h.kept);
      kept = refl;
    }
InOrder-Step _ _ (takes s t v i o k e) h =
    let m = finish_read-Becomes s k h.valid (fits-finish_read s t k e) in
    let same = ok-injective (sym m.returns ∙ e) in
    record {
      valid = rw (← same) m.valid;
      accounted =
          ap (λ u. (o ++ take k (pend_read s)) ++ pend_read u) (sym same)
          ∙ ap (λ q. (o ++ take k (pend_read s)) ++ q) m.waiting
          ∙ append_assoc o (take k (pend_read s)) (drop k (pend_read s))
          ∙ ap (λ q. o ++ q) (take_split (pend_read s) k)
          ∙ h.accounted;
      kept =
          ap (λ u. take (length v) (pending u)) (sym same) ∙ ap (take (length v)) m.rest ∙ h.kept;
    }

InOrder-Reaches : (a b : Trace) → Reaches a b → InOrder a → InOrder b
InOrder-Reaches a _ (start _) v = v
InOrder-Reaches a c (next _ b _ r st) v = InOrder-Step b c st (InOrder-Reaches a b r v)

-- In every order of calls on a new buffer, reads between `pend_write` and `finish_write` included,
-- the bytes received and then those that wait are the bytes that the producer put into its view and
-- committed: none is lost, changed, repeated or swapped; a producer commits no more than it has put.
pub Trace_in_order :
    (size : ℕ) (a : Trace) → Reaches (fresh size) a → a.received ++ pend_read a.buffer ≡ a.sent
Trace_in_order size a r = (InOrder-Reaches (fresh size) a r (InOrder-fresh size)).accounted
