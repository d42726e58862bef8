-- ===== src/Usb/Buffer.antt =====
-- The class `Buffer` of micropython/usb/usb-device/usb/device/core.py: one producer writes bytes, one
-- consumer reads them, and either may be interrupted by the other between two calls. Bytes are numbers,
-- counts of bytes are never negative. The critical sections make each call one step.
pub mod Bytes
pub mod Queue
pub mod Trace
pub mod Calls
use micropython_lib.Prelude.{
  ℕ, zero, suc, ◌+◌, ◌-◌, min, ◌++◌, ltb, leb, ◌==◌, if◌then◌else◌, List, [], ◌∷◌, Option, none,
  some, Result, ok, raise, index_error, assertion_error, ◌>>=◌, length, get_elem?, set, take, drop,
  replicate,
}

-- `_b`, `_n` and `_w`
pub record Buffer : Type 0 where
  pub b : List ℕ
  pub n : ℕ
  pub w : ℕ

unfoldable pub new : ℕ → Buffer
new size = record { b = replicate size 0; n = 0; w = size }

unfoldable pub writable : Buffer → ℕ
writable s = length s.b - s.n

unfoldable pub readable : Buffer → ℕ
readable s = s.n

-- The memoryview that `pend_write` returns: where it starts in `_b`, and its length.
pub record View : Type 0 where
  pub start : ℕ
  pub size : ℕ

-- `wmax` of None or 0 sets no limit, and a slice ends at the end of the buffer.
abbrev end_of : ℕ → ℕ → Option ℕ → ℕ
end_of total w none = total
end_of total w (some k) = if k == 0 then total else min (w + k) total

unfoldable pub pend_write : Buffer → Option ℕ → Buffer × View
pend_write s wmax =
    (record s { w = s.n }, record { start = s.n; size = end_of (length s.b) s.n wmax - s.n })

-- `_b[i] = _b[j]`
unfoldable pub copy_byte : List ℕ → ℕ → ℕ → Result (List ℕ)
copy_byte b i j = elim (get_elem? b j) [
  | none ↦ raise index_error
  | some x ↦ if ltb i (length b) then ok (set b i x) else raise index_error
]

-- The loop of `finish_write`.
unfoldable pub move_back : ℕ → Buffer → Result Buffer
move_back zero s = ok s
move_back (suc nbytes) s = do
  b ← copy_byte s.b s.n s.w
  move_back nbytes (record { b = b; n = suc s.n; w = suc s.w })

unfoldable pub finish_write : Buffer → ℕ → Result Buffer
finish_write s nbytes = if ltb (length s.b) (s.w + nbytes) then raise assertion_error else do
  t ← (if s.n == s.w then ok (record s { n = s.n + nbytes }) else move_back nbytes s)
  ok (record t { w = length t.b })

-- The producer's assignment `pw[:len(xs)] = xs` to the memoryview, which starts at `at`.
unfoldable pub fill : Buffer → ℕ → List ℕ → Buffer
fill s at xs = record s { b = take at s.b ++ (xs ++ drop (at + length xs) s.b) }

unfoldable pub write : Buffer → List ℕ → Result (Buffer × ℕ)
write s xs =
    let (t, view) = pend_write s none in
    let to_w = min (length xs) view.size in
    if to_w == 0
    then ok (t, to_w)
    else do u ← finish_write (fill t view.start (take to_w xs)) to_w; ok (u, to_w)

unfoldable pub pend_read : Buffer → List ℕ
pend_read s = take s.n s.b

-- The loop of `finish_read` with `rounds` rounds to go.
unfoldable pub shift : ℕ → List ℕ → ℕ → ℕ → Result (List ℕ)
shift zero b i nbytes = ok b
shift (suc rounds) b i nbytes = do b' ← copy_byte b i (i + nbytes); shift rounds b' (suc i) nbytes

unfoldable pub finish_read : Buffer → ℕ → Result Buffer
finish_read s nbytes =
    if nbytes == 0
    then ok s
    else if ltb s.n nbytes
    then raise assertion_error
    else do b ← shift (s.n - nbytes) s.b 0 nbytes; ok (record s { b = b; n = s.n - nbytes })

-- `readinto` of a bytearray of `size` bytes: the buffer, and the bytes that its first places get,
-- whose number is returned.
unfoldable pub readinto : Buffer → ℕ → Result (Buffer × List ℕ)
readinto s size =
    let pr = pend_read s in
    let to_r = min (length pr) size in
    if to_r == 0 then ok (s, []) else do t ← finish_read s to_r; ok (t, take to_r pr)
