-- ===== src/Tar.antt =====
-- The packages python-stdlib/tarfile (tarfile/__init__.py) and python-stdlib/tarfile-write
-- (tarfile/write.py): the reader of tar archives and the writer of members. A file that is read is
-- the bytes that are left of it, one that is written the bytes written so far. Names are bytes. A
-- member's `subf` is that of the archive until the next member is asked for.
pub mod Digits
pub mod Header
pub mod Skip
pub mod Entries
pub mod Ends
pub mod Append
pub mod RoundTrip
pub mod Records
mod Tests
use micropython_lib.Prelude.{
  ℕ, zero, suc, ◌+◌, ◌-◌, ◌*◌, ◌/◌, ◌%◌, Bool, true, false, not, ◌&&◌, ltb, leb, ◌==◌,
  if◌then◌else◌, List, [], ◌∷◌, ◌++◌, Option, none, some, Result, ok, raise, value_error,
  not_modelled, ◌||◌, ◌>>=◌, length, take, drop, replicate, bit_and,
}
use micropython_lib.Prelude.Text.{is_space, all_space}

abbrev pub Bytes : Type 0
Bytes = List ℕ

-- `_roundup`; `align` is a power of two, so the mask is a division.
abbrev pub roundup : ℕ → ℕ → ℕ
roundup val align = (val + (align - 1)) / align * align

pub record FileSection : Type 0 where
  pub content_len : ℕ
  pub align : ℕ

-- What `next` returns of a member, apart from its section.
pub record Member : Type 0 where
  pub name : Bytes
  pub mode : ℕ
  pub size : ℕ

-- An archive that is read.
pub record TarFile : Type 0 where
  pub f : Bytes
  pub subf : Option FileSection
  pub offset : ℕ

abbrev last_is : ℕ → Bytes → Bool
last_is c [] = false
last_is c (x ∷ []) = x == c
last_is c (x ∷ y ∷ s) = last_is c (y ∷ s)

-- `mode` of `TarInfo(name)`, of a name that is not empty.
abbrev pub mode_of : Bytes → ℕ
mode_of name = if last_is 47 name then 16384 else 32768

abbrev pub isdir : ℕ → Bool
isdir mode = bit_and mode 61440 == 16384

abbrev pub isreg : ℕ → Bool
isreg mode = bit_and mode 61440 == 32768

-- `FileSection.read` through an archive: the bytes, and what is left.
unfoldable pub read : ℕ → TarFile → Bytes × TarFile
read sz t = elim t.subf [
  | none ↦ ([], t)
  | some s ↦
      if s.content_len == 0
      then ([], t)
      else let asked = if ltb s.content_len sz then s.content_len else sz in
        let got = take asked t.f in
        (
          got,
          record t {
            f = drop asked t.f;
            subf = some (record s { content_len = s.content_len - length got });
          },
        )
]

-- The loop of `skip`; a round takes a byte at least, so `sz` rounds are enough.
unfoldable pub skip_loop : ℕ → ℕ → Bytes → Bytes
skip_loop zero sz f = f
skip_loop (suc rounds) sz f =
    let rest = skip_loop rounds (sz - 16) (drop 16 f) in
    if sz == 0 then f else if leb 16 sz then rest else drop sz f

abbrev pub skip : Option FileSection → Bytes → Bytes
skip none f = f
skip (some s) f = skip_loop (s.content_len + s.align) (s.content_len + s.align) f

-- `.rstrip("\0")`
unfoldable pub rstrip_nul : Bytes → Bytes
rstrip_nul [] = []
rstrip_nul (c ∷ s) =
    let rest = rstrip_nul s in
    elim rest [ [] ↦ (if c == 0 then [] else c ∷ []) | x ∷ r ↦ c ∷ x ∷ r ]

abbrev pub is_octal : ℕ → Bool
is_octal c = leb 48 c && leb c 55

-- A sign, an underscore or the letter of a prefix, which `int` may accept.
abbrev pub is_mark : ℕ → Bool
is_mark c = c == 43 || c == 45 || c == 95 || c == 79 || c == 111

unfoldable pub octal_digits : ℕ → Bytes → Result ℕ
unfolding all_space
octal_digits acc [] = ok acc
octal_digits acc (c ∷ s) =
    let rest = octal_digits (acc * 8 + (c - 48)) s in
    if is_octal c
    then rest
    else if is_mark c
    then raise not_modelled
    else if all_space (c ∷ s)
    then ok acc
    else raise value_error

-- `int(s, 8)` of a size: spaces, digits, spaces. What it makes of a mark is not modelled.
unfoldable pub int_octal : Bytes → Result ℕ
int_octal [] = raise value_error
int_octal (c ∷ s) =
    let rest = int_octal s in
    if is_space c
    then rest
    else if is_octal c
    then octal_digits (c - 48) s
    else if is_mark c
    then raise not_modelled
    else raise value_error

unfoldable pub is_ascii : Bytes → Bool
is_ascii [] = true
is_ascii (c ∷ s) = ltb c 128 && is_ascii s

-- What `next` makes of a block. Not modelled are a block that is cut short, behind whose end the
-- source reads, and a name that is not in ASCII, which may be no UTF-8.
unfoldable pub decode : Bytes → Result (Option (Member × FileSection))
decode [] = ok none
decode (c ∷ b) =
    if c == 0
    then ok none
    else if ltb (length (c ∷ b)) 512 || not (is_ascii (take 100 (c ∷ b)))
    then raise not_modelled
    else let name = rstrip_nul (take 100 (c ∷ b)) in
      do
        size ← int_octal (take 11 (drop 124 (c ∷ b)))
        ok (
            some (
              record { name = name; mode = mode_of name; size = size },
              record { content_len = size; align = roundup size 512 - size },
            ))

abbrev advance : TarFile → Bytes → Option (Member × FileSection) → Option Member × TarFile
advance t f none = (none, record t { f = drop 512 f })
advance t f (some (m, s)) = (
  some m,
  record {
    f = drop 512 f;
    subf = some s;
    offset = t.offset + length (take 512 f) + roundup m.size 512;
  },
)

unfoldable pub next : TarFile → Result (Option Member × TarFile)
next t = let f = skip t.subf t.f in do found ← decode (take 512 f); ok (advance t f found)

-- The loop of `_open_write` in mode "a": where the members end.
unfoldable pub to_end : ℕ → TarFile → Result (Option ℕ)
to_end zero t = ok none
to_end (suc rounds) t = do
  (m, u) ← next t
  elim m [ none ↦ ok (some u.offset) | some x ↦ to_end rounds u ]

-- A member to be written, and an archive that is written.
pub record TarInfo : Type 0 where
  pub name : Bytes
  pub mode : ℕ
  pub uid : ℕ
  pub gid : ℕ
  pub size : ℕ
  pub mtime : ℕ

pub record Writer : Type 0 where
  pub f : Bytes
  pub offset : ℕ
  pub mode_w : Bool

-- The digits of a number without leading zeros; the number is as many rounds as it needs.
unfoldable pub digits : ℕ → ℕ → Bytes
digits zero n = []
digits (suc rounds) n =
    let rest = digits rounds (n / 8) in if n == 0 then [] else rest ++ (48 + n % 8) ∷ []

-- `%0wo`: at least `w` digits.
unfoldable pub octal : ℕ → ℕ → Bytes
octal zero n = digits n n
octal (suc w) n = octal w (n / 8) ++ (48 + n % 8) ∷ []

-- `hdr.field[:] = b`, where `b` has no more bytes than the field; the rest is cleared. What the
-- assignment of more bytes does to the memory behind the field is not modelled: theorems on what is
-- written ask for numbers that fit.
abbrev pub field : ℕ → Bytes → Bytes
field w b = take w (b ++ replicate w 0)

abbrev pub sum : Bytes → ℕ
sum [] = 0
sum (b ∷ bs) = b + sum bs

-- The fields of a header around the checksum.
abbrev pub header_with : Bytes → ℕ → TarInfo → ℕ → Bytes → Bytes
header_with name perm t size chksum =
    field 100 name
    ++ (field 8 (octal 7 perm ++ 0 ∷ [])
        ++ (field 8 (octal 7 t.uid ++ 0 ∷ [])
            ++ (field 8 (octal 7 t.gid ++ 0 ∷ [])
                ++ (field 12 (octal 11 size ++ 0 ∷ [])
                    ++ (field 12 (octal 11 t.mtime ++ 0 ∷ [])
                        ++ (field 8 chksum
                            ++ ((if isdir t.mode then 53 else 48) ∷ replicate 355 0)))))))

abbrev pub written_name : TarInfo → Bytes
written_name t = if isdir t.mode && not (last_is 47 t.name) then t.name ++ 47 ∷ [] else t.name

abbrev pub written_size : TarInfo → ℕ
written_size t = if isdir t.mode then 0 else t.size

abbrev pub header : TarInfo → Bytes
header t =
    let perm = if isdir t.mode then 493 else 420 in
    let blank = header_with (written_name t) perm t (written_size t) (replicate 8 32) in
    header_with (written_name t) perm t (written_size t) (octal 6 (sum blank) ++ 0 ∷ 32 ∷ [])

-- The bytes from `n` to the end of its last block.
abbrev pub remains : ℕ → ℕ
remains n = (512 - n % 512) % 512

unfoldable pub addfile : TarInfo → Option Bytes → Writer → Writer
addfile t none w = record w { f = w.f ++ header t; offset = w.offset + length (header t) }
addfile t (some content) w = record w {
  f = w.f ++ (header t ++ (content ++ replicate (remains (length content)) 0));
  offset = w.offset + length (header t) + length content + remains (length content);
}

-- `_close_write`
unfoldable pub close_write : Writer → Writer
close_write w =
    let remainder = (w.offset + 1024) % 10240 in
    if w.mode_w
    then record w {
      f =
          w.f
          ++ (replicate 1024 0 ++ (if remainder == 0 then [] else replicate (10240 - remainder) 0));
      offset = w.offset + 1024;
    }
    else w

abbrev pub open_from : Bytes → Result (Option ℕ) → Result (Option Writer)
open_from file end = do
  n ← end
  ok (elim n [
    | none ↦ none
    | some n ↦ some (record { f = take n file; offset = n; mode_w = false })
  ])

-- `_open_write` of a file in mode "a", whose last member is not cut short; a round of the loop takes
-- a byte at least.
unfoldable pub open_append : Bytes → Result (Option Writer)
open_append file =
    open_from file (to_end (suc (length file)) (record { f = file; subf = none; offset = 0 }))

-- What the file holds after that: what was written stands over what was there.
abbrev pub written_over : Writer → Bytes → Bytes
written_over w file = w.f ++ drop (length w.f) file
