-- ===== src/Tar/Entries.antt =====
-- The members of an archive, as they are written and as `next` finds them.
use micropython_lib.Prelude.{
  true, refl, ℕ, ◌+◌, ◌-◌, ◌≡◌, ap, sym, ◌∙◌, arith, List, [], ◌∷◌, ◌++◌, Option, none, some,
  Result, ok, ◌>>=◌, length, take, drop, replicate, length-append,
}
use micropython_lib.Prelude.Slices.{
  append_assoc, append-nil, take_past, drop_past, length-replicate,
}
use micropython_lib.Tar.{
  Bytes, Member, FileSection, TarFile, TarInfo, Writer, mode_of, roundup, decode, advance, skip,
  next, header, written_name, written_size, remains, addfile,
}
use micropython_lib.Tar.Header.{IsName, IsWritable, length-header, decode-header}

-- A member to be written with its content, and how many bytes of it the reader asks for.
pub record Entry : Type 0 where
  pub info : TarInfo
  pub content : Bytes
  pub asked : ℕ

-- The name and the numbers fit, and the size is that of the content.
abbrev pub IsEntry : Entry → Type 0
IsEntry e =
    IsName (written_name e.info) × (written_size e.info ≡ length e.content) × IsWritable e.info

abbrev pub AllEntries : List Entry → Type 0
AllEntries [] = Unit {0}
AllEntries (e ∷ es) = IsEntry e × AllEntries es

unfoldable pub add_all : List Entry → Writer → Writer
add_all [] w = w
add_all (e ∷ es) w = add_all es (addfile e.info (some e.content) w)

-- A new archive in mode "w".
abbrev pub blank : Writer
blank = record { f = []; offset = 0; mode_w = true }

abbrev pub member_of : Entry → Member
member_of e = record {
  name = written_name e.info;
  mode = mode_of (written_name e.info);
  size = length e.content;
}

abbrev pub own_bytes : Entry → Bytes
own_bytes e = header e.info ++ (e.content ++ replicate (remains (length e.content)) 0)

abbrev pub all_bytes : List Entry → Bytes
all_bytes [] = []
all_bytes (e ∷ es) = own_bytes e ++ all_bytes es

pub add_all-mode_w : (es : List Entry) (w : Writer) → (add_all es w).mode_w ≡ w.mode_w
unfolding add_all addfile
add_all-mode_w [] w = refl
add_all-mode_w (e ∷ es) w = add_all-mode_w es (addfile e.info (some e.content) w)

pub add_all-f : (es : List Entry) (w : Writer) → (add_all es w).f ≡ w.f ++ all_bytes es
unfolding add_all addfile
add_all-f [] w = sym (append-nil w.f)
add_all-f (e ∷ es) w =
    add_all-f es (addfile e.info (some e.content) w) ∙ append_assoc w.f (own_bytes e) (all_bytes es)

-- `next` from the place of the next header.
from : TarFile → Bytes → Result (Option Member × TarFile)
from t f = decode (take 512 f) >>= λ found. ok (advance t f found)

first_block : (h rest : Bytes) → length h ≡ 512 → take 512 (h ++ rest) ≡ h
first_block h rest n = take_past h rest 512 0 (omega (arith, n)) ∙ append-nil h

behind_block : (h rest : Bytes) → length h ≡ 512 → drop 512 (h ++ rest) ≡ rest
behind_block h rest n = drop_past h rest 512 0 (omega (arith, n))

advance_member :
    (t : TarFile) (h rest : Bytes) (m : Member) (s : FileSection)
    → length h ≡ 512
    → advance t (h ++ rest) (some (m, s))
      ≡ (some m, record { f = rest; subf = some s; offset = t.offset + 512 + roundup m.size 512 })
advance_member t h rest m s n =
    ap
      (λ b. (
        some m,
        record {
          f = b;
          subf = some s;
          offset = t.offset + length (take 512 (h ++ rest)) + roundup m.size 512;
        },
      ))
      (behind_block h rest n)
    ∙ ap
        (λ k.
          (some m, record { f = rest; subf = some s; offset = t.offset + k + roundup m.size 512 }))
        (ap length (first_block h rest n) ∙ n)

pub next_member :
    (t : TarFile) (h rest : Bytes) (m : Member) (s : FileSection)
    → skip t.subf t.f ≡ h ++ rest
    → length h ≡ 512
    → decode h ≡ ok (some (m, s))
    → next t
      ≡ ok
          (some m, record { f = rest; subf = some s; offset = t.offset + 512 + roundup m.size 512 })
unfolding next from
next_member t h rest m s e n d =
    ap (from t) e
    ∙ ap (λ b. decode b >>= λ found. ok (advance t (h ++ rest) found)) (first_block h rest n)
    ∙ ap (λ r. r >>= λ found. ok (advance t (h ++ rest) found)) d
    ∙ ap ok (advance_member t h rest m s n)

-- What stands behind the members: nothing, or a block that is empty.
abbrev pub IsEnd : Bytes → Type 0
IsEnd [] = Unit {0}
IsEnd (c ∷ z) = c ≡ 0

pub next_end :
    (t : TarFile) (z : Bytes)
    → IsEnd z
    → skip t.subf t.f ≡ z
    → next t ≡ ok (none, record t { f = drop 512 z })
unfolding next from decode
next_end t [] h e = ap (from t) e
next_end t (c ∷ z) h e =
    ap (from t) (e ∙ ap (λ b. b ∷ z) h)
    ∙ ap (λ b. ok (none, record t { f = drop 512 (b ∷ z) })) (sym h)

-- The section of a member with `n` bytes.
abbrev pub section_of : ℕ → FileSection
section_of n = record { content_len = n; align = roundup n 512 - n }

decode_entry :
    (x : Entry)
    → IsEntry x
    → decode (header x.info) ≡ ok (some (member_of x, section_of (length x.content)))
decode_entry x (name, size, small) =
    decode-header x.info name small.size_fits
    ∙ ap
        (λ n. ok (
          some (
            record { name = written_name x.info; mode = mode_of (written_name x.info); size = n },
            section_of n,
          )))
        size

pub length-content :
    (x : Entry) (rest : Bytes)
    → length ((x.content ++ replicate (remains (length x.content)) 0) ++ rest)
      ≡ length x.content + remains (length x.content) + length rest
length-content x rest = omega (
  arith,
  length-append (x.content ++ replicate (remains (length x.content)) 0) rest,
  length-append x.content (replicate (remains (length x.content)) 0),
  length-replicate (remains (length x.content)) 0,
)

pub behind_content :
    (x : Entry) (rest : Bytes)
    → drop
        (length x.content + (roundup (length x.content) 512 - length x.content))
        ((x.content ++ replicate (remains (length x.content)) 0) ++ rest)
      ≡ rest
behind_content x rest =
    drop_past (x.content ++ replicate (remains (length x.content)) 0) rest
      (length x.content + (roundup (length x.content) 512 - length x.content)) 0
      (omega (
        arith,
        length-append x.content (replicate (remains (length x.content)) 0),
        length-replicate (remains (length x.content)) 0,
      ))

-- The reader behind the header of a member.
abbrev pub behind_header : Entry → TarFile → Bytes → TarFile
behind_header x t rest = record {
  f = (x.content ++ replicate (remains (length x.content)) 0) ++ rest;
  subf = some (section_of (length x.content));
  offset = t.offset + 512 + roundup (length x.content) 512;
}

pub next_entry :
    (x : Entry) (t : TarFile) (rest : Bytes)
    → IsEntry x
    → skip t.subf t.f ≡ own_bytes x ++ rest
    → next t ≡ ok (some (member_of x), behind_header x t rest)
next_entry x t rest h e =
    next_member t (header x.info) ((x.content ++ replicate (remains (length x.content)) 0) ++ rest)
      (member_of x) (section_of (length x.content))
      (e
        ∙ append_assoc (header x.info) (x.content ++ replicate (remains (length x.content)) 0) rest)
      (length-header x.info) (decode_entry x h)
