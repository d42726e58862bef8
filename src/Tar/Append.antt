-- ===== src/Tar/Append.antt =====
-- An archive that is opened in mode "a": where its members end, and members put behind them.
use micropython_lib.Prelude.{
  true, false, ℕ, zero, suc, ◌+◌, ◌-◌, ◌%◌, ◌<◌, ◌≤◌, ◌≡◌, refl, ap, sym, ◌∙◌, arith, ◌==◌,
  if◌then◌else◌, List, [], ◌∷◌, ◌++◌, map, none, some, ok, inl, inr, Bool-cases, length, take, drop,
  replicate, length-append,
}
use micropython_lib.Prelude.Slices.{
  append_assoc, append-nil, take_past, drop_past, length-replicate,
}
use micropython_lib.Tar.{
  Bytes, TarFile, Writer, skip, to_end, header, remains, roundup, open_append, written_over,
  close_write,
}
use micropython_lib.Tar.Header.{length-header}
use micropython_lib.Tar.Skip.{skip_lem}
use micropython_lib.Tar.Entries.{
  Entry, AllEntries, add_all, own_bytes, all_bytes, add_all-f, add_all-mode_w, blank, IsEnd,
  next_end, section_of, behind_content, behind_header, next_entry,
}
use micropython_lib.Tar.RoundTrip.{archive, extract, seen, extract_all}

length-own :
    (x : Entry) (rest : Bytes)
    → length (own_bytes x ++ rest) ≡ 512 + roundup (length x.content) 512 + length rest
length-own x rest = omega (
  arith,
  length-append (own_bytes x) rest,
  length-append (header x.info) (x.content ++ replicate (remains (length x.content)) 0),
  length-append x.content (replicate (remains (length x.content)) 0),
  length-replicate (remains (length x.content)) 0,
  length-header x.info,
)

-- The members of an archive are passed to the place where they end.
to_end-entries :
    (es : List Entry) (z : Bytes) (t : TarFile) (rounds : ℕ)
    → AllEntries es
    → IsEnd z
    → length es < rounds
    → skip t.subf t.f ≡ all_bytes es ++ z
    → to_end rounds t ≡ ok (some (t.offset + length (all_bytes es)))
unfolding to_end
to_end-entries es z t zero a h n e = absurd (omega arith)
to_end-entries [] z t (suc rounds) a h n e =
    rw (next_end t z h e) (ap (λ k. ok (some k)) (omega arith))
to_end-entries (x ∷ es) z t (suc rounds) a h n e =
    rw (next_entry x t (all_bytes es ++ z) a.0 (e ∙ append_assoc (own_bytes x) (all_bytes es) z)) (
      to_end-entries es z (behind_header x t (all_bytes es ++ z)) rounds a.1 h (omega arith) (
        skip_lem (section_of (length x.content)) (behind_header x t (all_bytes es ++ z)).f
        ∙ behind_content x (all_bytes es ++ z))
      ∙ ap (λ k. ok (some k)) (omega (arith, length-own x (all_bytes es))))

length-all_bytes : (es : List Entry) → length es ≤ length (all_bytes es)
length-all_bytes [] = omega arith
length-all_bytes (x ∷ es) = omega (arith, length-all_bytes es, length-own x (all_bytes es))

all_bytes-append : (es more : List Entry) → all_bytes (es ++ more) ≡ all_bytes es ++ all_bytes more
all_bytes-append [] more = refl
all_bytes-append (x ∷ es) more =
    ap (λ b. own_bytes x ++ b) (all_bytes-append es more)
    ∙ sym (append_assoc (own_bytes x) (all_bytes es) (all_bytes more))

AllEntries-append :
    (es more : List Entry) → AllEntries es → AllEntries more → AllEntries (es ++ more)
AllEntries-append [] more a b = b
AllEntries-append (x ∷ es) more a b = (a.0, AllEntries-append es more a.1 b)

abbrev AllZero : Bytes → Type 0
AllZero [] = Unit {0}
AllZero (c ∷ z) = (c ≡ 0) × AllZero z

replicate-AllZero : (n : ℕ) → AllZero (replicate n 0)
replicate-AllZero zero = tt
replicate-AllZero (suc n) = (refl, replicate-AllZero n)

append-AllZero : (y z : Bytes) → AllZero y → AllZero z → AllZero (y ++ z)
append-AllZero [] z a b = b
append-AllZero (c ∷ y) z a b = (a.0, append-AllZero y z a.1 b)

drop-AllZero : (n : ℕ) (z : Bytes) → AllZero z → AllZero (drop n z)
drop-AllZero zero z a = a
drop-AllZero (suc n) [] a = tt
drop-AllZero (suc n) (c ∷ z) a = drop-AllZero n z a.1

AllZero-IsEnd : (z : Bytes) → AllZero z → IsEnd z
AllZero-IsEnd [] a = tt
AllZero-IsEnd (c ∷ z) a = a.0

-- What `close` adds are zeros.
closing_zeros :
    (w : Writer) → w.mode_w ≡ true → (z : Bytes) × ((close_write w).f ≡ w.f ++ z) × AllZero z
unfolding close_write
closing_zeros w m = (
  replicate 1024 0
      ++ (if (w.offset + 1024) % 10240 == 0
          then []
          else replicate (10240 - (w.offset + 1024) % 10240) 0),
  rw m refl,
  append-AllZero (replicate 1024 0) _ (replicate-AllZero 1024) filler,
)
  where
    filler : AllZero (
        if (w.offset + 1024) % 10240 == 0
        then []
        else replicate (10240 - (w.offset + 1024) % 10240) 0)
    filler = elim (Bool-cases ((w.offset + 1024) % 10240 == 0)) [
      | inl e ↦ rw e tt
      | inr e ↦ rw e (replicate-AllZero (10240 - (w.offset + 1024) % 10240))
    ]

archive-eq : (es : List Entry) → (z : Bytes) × (archive es ≡ all_bytes es ++ z) × AllZero z
unfolding archive
archive-eq es =
    let (z, e, zeros) = closing_zeros (add_all es blank) (add_all-mode_w es blank) in
    (z, e ∙ ap (λ b. b ++ z) (add_all-f es blank), zeros)

-- The writer at the end of the members.
abbrev behind_all : List Entry → Writer
behind_all es = record { f = all_bytes es; offset = length (all_bytes es); mode_w = false }

open_append-eq :
    (es : List Entry) (z file : Bytes)
    → AllEntries es
    → IsEnd z
    → file ≡ all_bytes es ++ z
    → open_append file ≡ ok (some (behind_all es))
unfolding open_append
open_append-eq es z file a h e =
    rw
      (to_end-entries es z (record { f = file; subf = none; offset = 0 }) (suc (length file)) a h
        (omega (arith, ap length e, length-append (all_bytes es) z, length-all_bytes es)) e)
      (ap (λ n. ok (some (record { f = take n file; offset = n; mode_w = false })))
          {y = length (all_bytes es)} (omega arith)
        ∙ ap (λ b. ok (some (record { f = b; offset = length (all_bytes es); mode_w = false })))
            members)
  where
    members : take (length (all_bytes es)) file ≡ all_bytes es
    members =
        ap (take (length (all_bytes es))) e
        ∙ take_past (all_bytes es) z (length (all_bytes es)) 0 (omega arith)
        ∙ append-nil (all_bytes es)

not_closed : (w : Writer) → w.mode_w ≡ false → close_write w ≡ w
unfolding close_write
not_closed w e = rw e refl

-- What the file holds when members were put behind others.
written_over-eq :
    (es more : List Entry) (z file : Bytes)
    → file ≡ all_bytes es ++ z
    → written_over (close_write (add_all more (behind_all es))) file
      ≡ all_bytes (es ++ more) ++ drop (length (all_bytes more)) z
written_over-eq es more z file e =
    ap (λ v. written_over v file)
      (not_closed (add_all more (behind_all es)) (add_all-mode_w more (behind_all es)))
    ∙ ap (λ b. b ++ drop (length b) file)
        (add_all-f more (behind_all es) ∙ sym (all_bytes-append es more))
    ∙ ap (λ b. all_bytes (es ++ more) ++ b) left
  where
    left : drop (length (all_bytes (es ++ more))) file ≡ drop (length (all_bytes more)) z
    left =
        ap (drop (length (all_bytes (es ++ more)))) e
        ∙ drop_past (all_bytes es) z (length (all_bytes (es ++ more))) (length (all_bytes more))
            (ap length (all_bytes-append es more) ∙ length-append (all_bytes es) (all_bytes more))

-- A closed archive that is opened in mode "a" is left at the end of its members, and where more
-- members are added and it is closed again, these are read back behind those it has; of members with
-- names in ASCII and numbers that fit their fields.
pub open_append-extract :
    (es more : List Entry)
    → AllEntries es
    → AllEntries more
    → (w : Writer) × (open_append (archive es) ≡ ok (some w))
      × (w.offset ≡ length w.f)
      × (extract (map (λ e. e.asked) (es ++ more)) (record {
        f = written_over (close_write (add_all more w)) (archive es);
        subf = none;
        offset = 0;
      })
          ≡ ok (map seen (es ++ more)))
open_append-extract es more a b =
    let (z, e, zeros) = archive-eq es in
    (
      behind_all es,
      open_append-eq es z (archive es) a (AllZero-IsEnd z zeros) e,
      refl,
      extract_all (es ++ more) (drop (length (all_bytes more)) z) _ (AllEntries-append es more a b)
          (AllZero-IsEnd _ (drop-AllZero (length (all_bytes more)) z zeros))
          (written_over-eq es more z (archive es) e),
    )
