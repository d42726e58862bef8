-- ===== src/Usb/Buffer/Bytes.antt =====
-- The copying loops of `Buffer`, by slices of its bytes.
use micropython_lib.Prelude.{
  ℕ, zero, suc, ◌+◌, ◌≤◌, ◌<◌, ◌≡◌, refl, ap, sym, ◌∙◌, ◌++◌, List, [], ◌∷◌, some, ok, ◌>>=◌,
  length, get_elem?, set, take, drop, arith, length-set,
}
use micropython_lib.Prelude.Slices.{
  get_drop, take-set, drop-set, take-add, append_assoc, append-nil,
}
use micropython_lib.Usb.Buffer.{Buffer, copy_byte, move_back, shift}

-- One copy within the list: the list grows at `i` by the byte at `j`.
pub record Copied (b : List ℕ) (i j : ℕ) : Type 0 where
  pub byte : ℕ
  pub next : List ℕ
  pub copies : copy_byte b i j ≡ ok next
  pub same_length : length next ≡ length b
  pub source : (k : ℕ) → k ≡ suc j → drop j b ≡ byte ∷ drop k b
  pub front : take (suc i) next ≡ take i b ++ (byte ∷ [])
  pub behind : (k : ℕ) → i < k → drop k next ≡ drop k b

copy_byte-eq-ok :
    (b : List ℕ) (i j x : ℕ)
    → get_elem? b j ≡ some x
    → i < length b
    → copy_byte b i j ≡ ok (set b i x)
unfolding copy_byte
copy_byte-eq-ok b i j x e h = rw (copy_byte, e) (ground arith)

pub copy_byte_lem : (b : List ℕ) (i j : ℕ) → i < length b → j < length b → Copied b i j
copy_byte_lem b i j hi hj =
    let (x, e, s) = get_drop b j hj in
    record {
      byte = x;
      next = set b i x;
      copies = copy_byte-eq-ok b i j x e hi;
      same_length = length-set b i x;
      source = λ k q. s ∙ ap (λ m. x ∷ drop m b) (sym q);
      front = take-set b i x hi;
      behind = λ k h. drop-set b i k x h;
    }

-- What the loop of `finish_write` leaves behind.
pub record Moved (k : ℕ) (s : Buffer) : Type 0 where
  pub next : Buffer
  pub returns : move_back k s ≡ ok next
  pub same_length : length next.b ≡ length s.b
  pub count : next.n ≡ s.n + k
  pub contents : take next.n next.b ≡ take s.n s.b ++ take k (drop s.w s.b)

pub move_back_lem : (k : ℕ) (s : Buffer) → s.n < s.w → s.w + k ≤ length s.b → Moved k s
unfolding move_back
move_back_lem zero s h r = record {
  next = s;
  returns = refl;
  same_length = refl;
  count = omega arith;
  contents = sym (append-nil (take s.n s.b));
}
move_back_lem (suc k) s h r =
    let c = copy_byte_lem s.b s.n s.w (omega arith) (omega arith) in
    let m =
      move_back_lem k (record { b = c.next; n = suc s.n; w = suc s.w }) (omega arith)
        (omega (arith, c.same_length)) in
    record {
      next = m.next;
      returns = rw (c.copies, ◌>>=◌) m.returns;
      same_length = m.same_length ∙ c.same_length;
      count = omega (arith, m.count);
      contents =
          m.contents
          ∙ rw (c.front, c.behind (suc s.w) (omega arith), c.source (suc s.w) refl)
              (append_assoc (take s.n s.b) (c.byte ∷ []) (take k (drop (suc s.w) s.b)));
    }

-- What the loop of `finish_read` leaves behind: the bytes from `i + d` on move down to `i`, and the
-- bytes from `i + rounds` on stay.
pub record Shifted (rounds : ℕ) (b : List ℕ) (i d : ℕ) : Type 0 where
  pub next : List ℕ
  pub returns : shift rounds b i d ≡ ok next
  pub same_length : length next ≡ length b
  pub front : take (i + rounds) next ≡ take i b ++ take rounds (drop (i + d) b)
  pub behind : (k : ℕ) → i + rounds ≤ k → drop k next ≡ drop k b

pub shift_lem :
    (rounds : ℕ) (b : List ℕ) (i d : ℕ) → i + d + rounds ≤ length b → Shifted rounds b i d
unfolding shift
shift_lem zero b i d h = record {
  next = b;
  returns = refl;
  same_length = refl;
  front = take-add b i 0;
  behind = λ k g. refl;
}
shift_lem (suc r) b i d h =
    let c = copy_byte_lem b i (i + d) (omega arith) (omega arith) in
    let m = shift_lem r c.next (suc i) d (omega (arith, c.same_length)) in
    record {
      next = m.next;
      returns = rw (c.copies, ◌>>=◌) m.returns;
      same_length = m.same_length ∙ c.same_length;
      front =
          ap (λ z. take z m.next) (omega arith)
          ∙ m.front
          ∙ rw (c.front, c.behind (suc i + d) (omega arith), c.source (suc i + d) (omega arith))
              (append_assoc (take i b) (c.byte ∷ []) (take r (drop (suc i + d) b)));
      behind = λ k g. m.behind k (omega arith) ∙ c.behind k (omega arith);
    }
