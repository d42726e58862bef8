-- ===== src/Tar/RoundTrip.antt =====
-- An archive of members as it is written, and read back.
use micropython_lib.Prelude.{
  ◌+◌, ◌-◌, ◌%◌, ◌==◌, if◌then◌else◌, true, ℕ, ◌≡◌, refl, ap, ◌∙◌, arith, List, [], ◌∷◌, ◌++◌, map,
  min, none, some, Result, ok, raise, value_error, ◌>>=◌, length, take, replicate,
}
use micropython_lib.Prelude.Slices.{append_assoc, take-append_left}
use micropython_lib.Tar.{Bytes, Member, TarFile, Writer, skip, next, read, remains, close_write}
use micropython_lib.Tar.Skip.{ReadOf, read_lem}
use micropython_lib.Tar.Entries.{
  Entry, AllEntries, add_all, member_of, own_bytes, all_bytes, add_all-f, add_all-mode_w, blank,
  IsEnd, next_end, section_of, length-content, behind_content, behind_header, next_entry,
}

-- `TarFile(mode="w")`, `addfile` of each member, and `close`.
unfoldable pub archive : List Entry → Bytes
archive es = (close_write (add_all es blank)).f

-- A reader that asks each member for a number of bytes, and then for one member more.
unfoldable pub extract : List ℕ → TarFile → Result (List (Member × Bytes))
extract [] t = do (m, u) ← next t; elim m [ none ↦ ok [] | some x ↦ raise value_error ]
extract (k ∷ ks) t = do
  (m, u) ← next t
  elim m [
    | none ↦ raise value_error
    | some x ↦ (do rest ← extract ks (read k u).1; ok ((x, (read k u).0) ∷ rest))
  ]

abbrev pub seen : Entry → Member × Bytes
seen e = (member_of e, take (min e.asked (length e.content)) e.content)

-- What stands behind the members.
pub closing : (w : Writer) → w.mode_w ≡ true → (z : Bytes) × ((close_write w).f ≡ w.f ++ 0 ∷ z)
unfolding close_write
closing w e = (
  replicate 1023 0
      ++ (if (w.offset + 1024) % 10240 == 0
          then []
          else replicate (10240 - (w.offset + 1024) % 10240) 0),
  rw e refl,
)

-- The bytes of a member are read, and the next place is behind it.
read_entry :
    (x : Entry) (t : TarFile) (rest : Bytes)
    → ((read x.asked (behind_header x t rest)).0 ≡ (seen x).1)
      × (skip
            (read x.asked (behind_header x t rest)).1.subf
            (read x.asked (behind_header x t rest)).1.f
          ≡ rest)
read_entry x t rest = (r.got ∙ got, r.rest ∙ behind_content x rest)
  where
    r : ReadOf x.asked (behind_header x t rest) (section_of (length x.content))
    r =
        read_lem x.asked (behind_header x t rest).f (section_of (length x.content))
          (behind_header x t rest).offset (omega (arith, length-content x rest))

    got :
        take (min x.asked (length x.content)) (behind_header x t rest).f
        ≡ take (min x.asked (length x.content)) x.content
    got =
        ap (take (min x.asked (length x.content)))
          (append_assoc x.content (replicate (remains (length x.content)) 0) rest)
        ∙ take-append_left x.content (replicate (remains (length x.content)) 0 ++ rest)
            (min x.asked (length x.content)) (omega arith)

-- From a place where the members stand, each is read back.
pub extract_all :
    (es : List Entry) (z : Bytes) (t : TarFile)
    → AllEntries es
    → IsEnd z
    → skip t.subf t.f ≡ all_bytes es ++ z
    → extract (map (λ e. e.asked) es) t ≡ ok (map seen es)
unfolding extract
extract_all [] z t a h e = rw (next_end t z h e) refl
extract_all (x ∷ es) z t a h e =
    let (got, behind) = read_entry x t (all_bytes es ++ z) in
    rw
      (
        next_entry x t (all_bytes es ++ z) a.0 (e ∙ append_assoc (own_bytes x) (all_bytes es) z),
        extract_all es z (read x.asked (behind_header x t (all_bytes es ++ z))).1 a.1 h behind,
      )
      (ap (λ g. ok ((member_of x, g) ∷ map seen es)) got)

-- What is written of members with names and sizes that fit is read back: each member with its
-- name, its size and the mode that its name has, of a directory or a file, and of its content as many
-- bytes as are asked for, in any number; behind the last one `next` returns None. The numbers fit
-- where none has more digits than its field, and names are in ASCII.
pub archive-extract :
    (es : List Entry)
    → AllEntries es
    → extract (map (λ e. e.asked) es) (record { f = archive es; subf = none; offset = 0 })
      ≡ ok (map seen es)
unfolding archive
archive-extract es a =
    let (z, e) = closing (add_all es blank) (add_all-mode_w es blank) in
    extract_all es (0 ∷ z) (record { f = archive es; subf = none; offset = 0 }) a refl
      (e ∙ ap (λ b. b ++ 0 ∷ z) (add_all-f es blank))
