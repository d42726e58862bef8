-- ===== src/Usb/Buffer/Calls.antt =====
-- The two helper methods of `Buffer`, `write` and `readinto`, and what a call does to the room left.
use micropython_lib.Prelude.{
  ℕ, zero, suc, ◌+◌, ◌≤◌, min, ◌≡◌, ◌≢◌, refl, ap, sym, ◌∙◌, ◌++◌, List, [], ◌∷◌, none, ok, ◌==◌,
  false, true, length, take, drop, arith, length-take,
}
use native.Mathlib.Decide.{ℕ_discrete}
use micropython_lib.Usb.Buffer.{
  Buffer, pend_write, finish_write, fill, pend_read, writable, write, readinto,
}
use micropython_lib.Prelude.Slices.{take_all, append-nil, take-append_left}
use micropython_lib.Usb.Buffer.Queue.{
  IsValid, pending, Becomes, finish_write-Becomes, finish_read-Becomes,
}
use micropython_lib.Usb.Buffer.Trace.{length-fill, pend_read-fill, pending-fill, pend_write-IsValid}

-- What `write` of `xs` does to a valid buffer.
pub record Wrote (s : Buffer) (xs : List ℕ) : Type 0 where
  pub after : Buffer
  pub returns : write s xs ≡ ok (after, min (length xs) (writable s))
  pub valid : IsValid after
  pub size : length after.b ≡ length s.b
  pub waiting : pend_read after ≡ pend_read s ++ take (writable s) xs

==_zero : (a : ℕ) → a ≡ 0 → (a == 0) ≡ true
==_zero a h = ground arith

==_nonzero : (a : ℕ) → a ≢ 0 → (a == 0) ≡ false
==_nonzero a h = ground arith

none_left : (n : ℕ) → take {A = ℕ} n [] ≡ []
none_left zero = refl
none_left (suc n) = refl

take-min : (xs : List ℕ) (k : ℕ) → take (min (length xs) k) xs ≡ take k xs
take-min [] k = none_left (min 0 k) ∙ sym (none_left k)
take-min (x ∷ xs) zero = ap (λ j. take j (x ∷ xs)) {y = 0} (omega arith)
take-min (x ∷ xs) (suc k) =
    ap (λ j. take j (x ∷ xs)) {y = suc (min (length xs) k)} (omega arith)
    ∙ ap (λ ys. x ∷ ys) (take-min xs k)

drop_nil : (n : ℕ) → drop {A = ℕ} n [] ≡ []
drop_nil zero = refl
drop_nil (suc n) = refl

drop-min : (xs : List ℕ) (k : ℕ) → drop (min (length xs) k) xs ≡ drop k xs
drop-min [] k = drop_nil (min 0 k) ∙ sym (drop_nil k)
drop-min (x ∷ xs) zero = ap (λ j. drop j (x ∷ xs)) {y = 0} (omega arith)
drop-min (x ∷ xs) (suc k) =
    ap (λ j. drop j (x ∷ xs)) {y = suc (min (length xs) k)} (omega arith) ∙ drop-min xs k

-- The pending write filled from its start with bytes, all of which are then committed.
pub filled :
    (s : Buffer) (ys : List ℕ) (k : ℕ)
    → IsValid s
    → s.w + k ≤ length s.b
    → length ys ≡ k
    → Becomes s (finish_write (fill s s.w ys) k) (pend_read s ++ ys) []
unfolding fill
filled s ys k v h e =
    let len = length-fill s ys v (omega arith) in
    let m =
      finish_write-Becomes (fill s s.w ys) k
        (record { data_end = v.data_end; pending_start = omega (arith, len) })
        (omega (arith, len)) in
    record {
      after = m.after;
      returns = m.returns;
      valid = m.valid;
      size = m.size ∙ len;
      waiting =
          m.waiting
          ∙ rw
              (
                pend_read-fill s ys v,
                pending-fill s ys v,
                take-append_left ys (drop (s.w + length ys) s.b) k (omega arith),
              )
              (ap (λ q. pend_read s ++ q) (take_all ys k (omega arith)));
      rest = m.rest;
    }

-- Of a valid buffer, `write` puts as many bytes as there is room for behind those that wait, in
-- order, returns their number, and leaves the buffer valid.
pub write-Wrote : (s : Buffer) (xs : List ℕ) → IsValid s → Wrote s xs
unfolding write writable pend_write pend_read
write-Wrote s xs v = elim (ℕ_discrete k 0) [
  | yes e ↦ record {
    after = t;
    returns = rw (==_zero k e) refl;
    valid = pend_write-IsValid s none v;
    size = refl;
    waiting =
        sym (append-nil (pend_read s))
        ∙ ap (λ j. pend_read s ++ take j xs) (sym e)
        ∙ ap (λ q. pend_read s ++ q) (take-min xs (writable s));
  }
  | no e ↦
      let m =
        filled t (take k xs) k (pend_write-IsValid s none v) (omega arith)
          (omega (arith, length-take k xs)) in
      record {
        after = m.after;
        returns = rw (==_nonzero k e, m.returns) refl;
        valid = m.valid;
        size = m.size;
        waiting = m.waiting ∙ ap (λ q. pend_read s ++ q) (take-min xs (writable s));
      }
]
  where
    k : ℕ
    k = min (length xs) (writable s)

    t : Buffer
    t = (pend_write s none).0

-- What `readinto` of a bytearray of `size` bytes does to a valid buffer.
pub record Read (s : Buffer) (size : ℕ) : Type 0 where
  pub after : Buffer
  pub returns : readinto s size ≡ ok (after, take size (pend_read s))
  pub valid : IsValid after
  pub capacity : length after.b ≡ length s.b
  pub waiting : pend_read after ≡ drop size (pend_read s)
  pub untouched : pending after ≡ pending s

-- Of a valid buffer, `readinto` gives the bytes that wait, as many as have room, in order, and takes
-- them from the queue; a pending write stays.
pub readinto-Read : (s : Buffer) (size : ℕ) → IsValid s → Read s size
unfolding readinto
readinto-Read s size v = elim (ℕ_discrete k 0) [
  | yes e ↦ record {
    after = s;
    returns =
        rw (==_zero k e) (ap (λ q. ok (s, q)) (ap (λ j. take j (pend_read s)) (sym e) ∙ taken));
    valid = v;
    capacity = refl;
    waiting = ap (λ j. drop j (pend_read s)) (sym e) ∙ dropped;
    untouched = refl;
  }
  | no e ↦
      let m = finish_read-Becomes s k v (unfold pend_read in omega (arith, length-take s.n s.b)) in
      record {
        after = m.after;
        returns = rw (==_nonzero k e, m.returns) (ap (λ q. ok (m.after, q)) taken);
        valid = m.valid;
        capacity = m.size;
        waiting = m.waiting ∙ dropped;
        untouched = m.rest;
      }
]
  where
    k : ℕ
    k = min (length (pend_read s)) size

    taken : take k (pend_read s) ≡ take size (pend_read s)
    taken = take-min (pend_read s) size

    dropped : drop k (pend_read s) ≡ drop size (pend_read s)
    dropped = drop-min (pend_read s) size
