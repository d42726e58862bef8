-- ===== src/Tar/Records.antt =====
-- The blocks of an archive that is written.
use micropython_lib.Prelude.{
  true, ℕ, ◌+◌, ◌-◌, ◌%◌, ◌≤◌, ◌<◌, ◌≡◌, arith, false, ◌==◌, inl, inr, Bool-cases, if◌then◌else◌,
  [], ◌++◌, Option, none, some, length, replicate, length-append,
}
use micropython_lib.Prelude.Slices.{length-replicate}
use micropython_lib.Tar.{Bytes, TarInfo, Writer, header, remains, addfile, close_write}
use micropython_lib.Tar.Header.{IsWritable, length-header}

-- The position is the number of bytes written, and the next header starts a block.
pub record IsAligned (w : Writer) : Type 0 where
  pub at_end : w.offset ≡ length w.f
  pub whole : w.offset % 512 ≡ 0

length-content :
    (t : TarInfo) (w : Writer) (content : Bytes)
    → length (addfile t (some content) w).f
      ≡ length w.f + 512 + length content + remains (length content)
unfolding addfile
length-content t w content = omega (
  arith,
  length-append w.f (header t ++ (content ++ replicate (remains (length content)) 0)),
  length-append (header t) (content ++ replicate (remains (length content)) 0),
  length-append content (replicate (remains (length content)) 0),
  length-replicate (remains (length content)) 0,
  length-header t,
)

-- `addfile` of a member whose numbers fit their fields, with a content or without one, leaves the
-- position at the end of what is written and at the start of a block when it was so before.
pub addfile-IsAligned :
    (t : TarInfo) (content : Option Bytes) (w : Writer)
    → IsWritable t
    → IsAligned w
    → IsAligned (addfile t content w)
unfolding addfile
addfile-IsAligned t none w fits a = record {
  at_end = omega (arith, a.at_end, length-append w.f (header t));
  whole = omega (arith, a.whole, length-header t);
}
addfile-IsAligned t (some content) w fits a = record {
  at_end = omega (arith, a.at_end, length-content t w content, length-header t);
  whole = omega (arith, a.whole, length-header t);
}

-- The bytes that `close` adds behind the two blocks.
abbrev filler : ℕ → Bytes
filler remainder = if remainder == 0 then [] else replicate (10240 - remainder) 0

length-filler :
    (n : ℕ)
    → ((n + length (filler (n % 10240))) % 10240 ≡ 0) × (length (filler (n % 10240)) < 10240)
length-filler n = elim (Bool-cases (n % 10240 == 0)) [
  | inl e ↦ rw e (ground (arith, e), omega arith)
  | inr e ↦ rw e (short e)
]
  where
    short :
        (n % 10240 == 0) ≡ false
        → ((n + length {A = ℕ} (replicate (10240 - n % 10240) 0)) % 10240 ≡ 0)
          × (length {A = ℕ} (replicate (10240 - n % 10240) 0) < 10240)
    short e = rw (length-replicate (10240 - n % 10240) 0) (ground (arith, e), ground (arith, e))

length-closed :
    (w : Writer)
    → w.mode_w ≡ true
    → length (close_write w).f ≡ length w.f + 1024 + length (filler ((w.offset + 1024) % 10240))
unfolding close_write
length-closed w m = rw m (
    omega (
      arith,
      length-append w.f (replicate 1024 0 ++ filler ((w.offset + 1024) % 10240)),
      length-append (replicate {A = ℕ} 1024 0) (filler ((w.offset + 1024) % 10240)),
      length-replicate 1024 0,
    ))

-- `close` in mode "w" brings an archive at whose end the position is to a whole number of records of 10240
-- bytes, and adds two blocks at least and less than two blocks and a record.
pub close_write-Records :
    (w : Writer)
    → w.mode_w ≡ true
    → IsAligned w
    → (length (close_write w).f % 10240 ≡ 0)
      × (length w.f + 1024 ≤ length (close_write w).f)
      × (length (close_write w).f < length w.f + 1024 + 10240)
close_write-Records w m a =
    let (whole, short) = length-filler (w.offset + 1024) in
    let closed = length-closed w m in
    (omega (arith, closed, whole, a.at_end), omega (arith, closed), omega (arith, closed, short))
