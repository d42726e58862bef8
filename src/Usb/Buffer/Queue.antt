-- ===== src/Usb/Buffer/Queue.antt =====
-- `Buffer` as a queue of bytes: what each call does to the bytes that wait to be read and to the
-- bytes of the pending write.
use micropython_lib.Prelude.{
  ℕ, ◌+◌, ◌-◌, ◌≤◌, ◌<◌, ◌≡◌, ◌≢◌, refl, ap, sym, ◌∙◌, ◌++◌, List, [], ◌∷◌, ◌⊎◌, inl, inr, Result,
  ok, length, take, drop, arith, if◌then◌else◌, false, true, raise, Error, assertion_error, ◌↔◌,
  raise-ne-ok, ltb, ◌==◌,
}
use native.Mathlib.Decide.{ℕ_discrete}
use micropython_lib.Usb.Buffer.{Buffer, finish_write, move_back, pend_read, finish_read}
use micropython_lib.Prelude.Slices.{take-add, drop-take}
use micropython_lib.Usb.Buffer.Bytes.{move_back_lem, shift_lem}

-- Data, then unused space, then the pending write.
pub record IsValid (s : Buffer) : Type 0 where
  pub data_end : s.n ≤ s.w
  pub pending_start : s.w ≤ length s.b

-- The bytes of the pending write.
unfoldable pub pending : Buffer → List ℕ
pending s = drop s.w s.b

-- A call that returns `t` in the state `s`, with these bytes in the queue and pending after it.
pub record Becomes (s : Buffer) (r : Result Buffer) (queue left : List ℕ) : Type 0 where
  pub after : Buffer
  pub returns : r ≡ ok after
  pub valid : IsValid after
  pub size : length after.b ≡ length s.b
  pub waiting : pend_read after ≡ queue
  pub rest : pending after ≡ left

drop_all : {A : Type 0} (xs : List A) → drop (length xs) xs ≡ []
drop_all [] = refl
drop_all (x ∷ xs) = drop_all xs

ltb-false : (a b : ℕ) → b ≤ a → ltb a b ≡ false
ltb-false a b h = ground arith

==_false : (a b : ℕ) → a ≢ b → (a == b) ≡ false
==_false a b h = ground arith

-- Both paths of `finish_write` before it ends the pending write.
record Written (s : Buffer) (k : ℕ) : Type 0 where
  next : Buffer
  returns : (if s.n == s.w then ok (record s { n = s.n + k }) else move_back k s) ≡ ok next
  same_length : length next.b ≡ length s.b
  count : next.n ≡ s.n + k
  contents : pend_read next ≡ pend_read s ++ take k (pending s)

written : (s : Buffer) (k : ℕ) → IsValid s → s.w + k ≤ length s.b → Written s k
unfolding pend_read pending
written s k v h = elim (ℕ_discrete s.n s.w) [
  | yes e ↦ record {
    next = record s { n = s.n + k };
    returns = ground arith;
    same_length = refl;
    count = refl;
    contents = take-add s.b s.n k ∙ ap (λ z. take s.n s.b ++ take k (drop z s.b)) e;
  }
  | no e ↦
      let m = move_back_lem k s (omega arith) h in
      record {
        next = m.next;
        returns = ground (arith, m.returns);
        same_length = m.same_length;
        count = m.count;
        contents = m.contents;
      }
]

-- Of a valid buffer, `finish_write` of `k` bytes that the pending write has puts them behind the bytes
-- that wait, also when some were read since `pend_write`, and ends the pending write.
pub finish_write-Becomes :
    (s : Buffer) (k : ℕ)
    → IsValid s
    → s.w + k ≤ length s.b
    → Becomes s (finish_write s k) (pend_read s ++ take k (pending s)) []
unfolding finish_write pending pend_read
finish_write-Becomes s k v h =
    let m = written s k v h in
    record {
      after = record m.next { w = length m.next.b };
      returns = rw (finish_write, ltb-false (length s.b) (s.w + k) h, m.returns) refl;
      valid = record {
        data_end = omega (arith, m.count, m.same_length);
        pending_start = omega arith;
      };
      size = m.same_length;
      waiting = m.contents;
      rest = drop_all m.next.b;
    }

-- Of a valid buffer, `finish_read` of no more bytes than wait takes them from the front of the bytes
-- that wait, and leaves a pending write as it is.
pub finish_read-Becomes :
    (s : Buffer) (k : ℕ)
    → IsValid s
    → k ≤ s.n
    → Becomes s (finish_read s k) (drop k (pend_read s)) (pending s)
unfolding finish_read pending pend_read
finish_read-Becomes s k v h = elim (ℕ_discrete k 0) [
  | yes e ↦ record {
    after = s;
    returns = ground arith;
    valid = v;
    size = refl;
    waiting = rw e refl;
    rest = refl;
  }
  | no e ↦
      let m = shift_lem (s.n - k) s.b 0 k (omega arith) in
      record {
        after = record s { b = m.next; n = s.n - k };
        returns = rw (finish_read, ==_false k 0 e, ltb-false s.n k h, m.returns) refl;
        valid = record { data_end = omega arith; pending_start = omega (arith, m.same_length) };
        size = m.same_length;
        waiting =
            ap (λ z. take z m.next) (omega arith)
            ∙ m.front
            ∙ ap (λ z. take (s.n - k) (drop z s.b)) (omega arith)
            ∙ sym (drop-take s.b k s.n);
        rest = m.behind s.w (omega arith);
      }
]

Nat_cases : (a b : ℕ) → (a ≤ b) ⊎ (b < a)
Nat_cases a b = grind arith

-- A call that returns has passed its assertion.
ltb-true : (a b : ℕ) → a < b → ltb a b ≡ true
ltb-true a b h = ground arith

refused-finish_write :
    (s : Buffer) (k : ℕ) → length s.b < s.w + k → finish_write s k ≡ raise assertion_error
unfolding finish_write
refused-finish_write s k h = rw (ltb-true _ _ h) refl

pub fits-finish_write : (s t : Buffer) (k : ℕ) → finish_write s k ≡ ok t → s.w + k ≤ length s.b
fits-finish_write s t k e = elim (Nat_cases (s.w + k) (length s.b)) [
  | inl h ↦ h
  | inr h ↦ absurd (raise-ne-ok (sym (refused-finish_write s k h) ∙ e))
]

refused-finish_read : (s : Buffer) (k : ℕ) → s.n < k → finish_read s k ≡ raise assertion_error
unfolding finish_read
refused-finish_read s k h = rw (==_false k 0 (λ q. omega arith), ltb-true _ _ h) refl

pub fits-finish_read : (s t : Buffer) (k : ℕ) → finish_read s k ≡ ok t → k ≤ s.n
fits-finish_read s t k e = elim (Nat_cases k s.n) [
  | inl h ↦ h
  | inr h ↦ absurd (raise-ne-ok (sym (refused-finish_read s k h) ∙ e))
]

-- Of a valid buffer, `finish_write` raises AssertionError exactly where more bytes are claimed than
-- the pending write has, and `finish_read` where more are claimed than wait; no other error occurs.
pub overrun_iff :
    (s : Buffer) (k : ℕ) (e : Error)
    → IsValid s
    → ((finish_write s k ≡ raise e) ↔ ((e ≡ assertion_error) × (length s.b < s.w + k)))
      × ((finish_read s k ≡ raise e) ↔ ((e ≡ assertion_error) × (s.n < k)))
overrun_iff s k e v = ((write_only_if, write_if), (read_only_if, read_if))
  where
    the_error : Error → Result Buffer
    the_error x = raise x

    same_error : (x y : Error) → the_error x ≡ the_error y → x ≡ y
    same_error x y h = cc

    write_only_if : finish_write s k ≡ raise e → (e ≡ assertion_error) × (length s.b < s.w + k)
    write_only_if r = elim (Nat_cases (s.w + k) (length s.b)) [
      | inl h ↦ absurd (raise-ne-ok (sym r ∙ (finish_write-Becomes s k v h).returns))
      | inr h ↦ (same_error e assertion_error (sym r ∙ refused-finish_write s k h), h)
    ]

    write_if : (e ≡ assertion_error) × (length s.b < s.w + k) → finish_write s k ≡ raise e
    write_if (q, h) = rw q (refused-finish_write s k h)

    read_only_if : finish_read s k ≡ raise e → (e ≡ assertion_error) × (s.n < k)
    read_only_if r = elim (Nat_cases k s.n) [
      | inl h ↦ absurd (raise-ne-ok (sym r ∙ (finish_read-Becomes s k v h).returns))
      | inr h ↦ (same_error e assertion_error (sym r ∙ refused-finish_read s k h), h)
    ]

    read_if : (e ≡ assertion_error) × (s.n < k) → finish_read s k ≡ raise e
    read_if (q, h) = rw q (refused-finish_read s k h)
