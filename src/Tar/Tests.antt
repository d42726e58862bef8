-- ===== src/Tar/Tests.antt =====
-- Runs of the reader and the writer of archives, and their theorems at concrete values.
use micropython_lib.Prelude.{
  false, true, map, ok, length, replicate, ◌++◌, raise, value_error, ◌+◌, ◌%◌, ◌<◌, ◌≤◌, ◌≡◌, refl,
  arith, List, [], ◌∷◌, none, some,
}
use micropython_lib.Tar.{
  is_ascii, digits, to_end, open_append, written_over, TarInfo, Writer, roundup, read, skip_loop,
  skip, rstrip_nul, octal_digits, int_octal, octal, field, addfile, close_write, next, decode,
}
use micropython_lib.Tar.Entries.{Entry, AllEntries, add_all}
use micropython_lib.Tar.RoundTrip.{archive, extract, seen, archive-extract}
use micropython_lib.Tar.Header.{IsWritable}
use micropython_lib.Tar.Append.{open_append-extract}
use micropython_lib.Tar.Records.{IsAligned, addfile-IsAligned, close_write-Records}

octal_run : octal 7 420 ≡ 48 ∷ 48 ∷ 48 ∷ 48 ∷ 54 ∷ 52 ∷ 52 ∷ []
unfolding octal digits
octal_run = refl

int_octal_run : int_octal (32 ∷ 48 ∷ 49 ∷ 55 ∷ 32 ∷ []) ≡ ok 15
unfolding int_octal octal_digits
int_octal_run = refl

int_octal_refused : int_octal (48 ∷ 56 ∷ []) ≡ raise value_error
unfolding int_octal octal_digits
int_octal_refused = refl

field_run : field 4 (97 ∷ []) ≡ 97 ∷ 0 ∷ 0 ∷ 0 ∷ []
field_run = refl

roundup_run : roundup 513 512 ≡ 1024
roundup_run = refl

read_run :
    (read 2 (record {
      f = 1 ∷ 2 ∷ 3 ∷ 4 ∷ [];
      subf = some (record { content_len = 3; align = 1 });
      offset = 0;
    })).0
    ≡ 1 ∷ 2 ∷ []
unfolding read
read_run = refl

skip_run : skip (some (record { content_len = 2; align = 1 })) (1 ∷ 2 ∷ 3 ∷ 4 ∷ []) ≡ 4 ∷ []
unfolding skip_loop
skip_run = refl

-- A file of three bytes.
abbrev note : TarInfo
note = record {
  name = 97 ∷ 46 ∷ 116 ∷ [];
  mode = 33188;
  uid = 1000;
  gid = 1000;
  size = 3;
  mtime = 1700000000;
}

-- A directory whose name lacks the slash.
abbrev folder : TarInfo
folder = record { name = 100 ∷ []; mode = 16877; uid = 0; gid = 0; size = 4096; mtime = 0 }

abbrev entries : List Entry
entries =
    record { info = folder; content = []; asked = 1 }
    ∷ record { info = note; content = 104 ∷ 105 ∷ 33 ∷ []; asked = 2 }
    ∷ []

folder-IsWritable : IsWritable folder
folder-IsWritable = record {
  uid_fits = omega arith;
  gid_fits = omega arith;
  mtime_fits = omega arith;
  size_fits = ground arith;
}

note-IsWritable : IsWritable note
note-IsWritable = record {
  uid_fits = omega arith;
  gid_fits = omega arith;
  mtime_fits = omega arith;
  size_fits = ground arith;
}

entries-AllEntries : AllEntries entries
unfolding rstrip_nul is_ascii
entries-AllEntries = (
  ((ground arith, refl, ground arith, refl), refl, folder-IsWritable),
  (((ground arith, refl, ground arith, refl), refl, note-IsWritable), tt),
)

archive-extract_example :
    extract (map (λ e. e.asked) entries) (record { f = archive entries; subf = none; offset = 0 })
    ≡ ok (map seen entries)
archive-extract_example = archive-extract entries entries-AllEntries

open_append-extract_example :
    (w : Writer) × (open_append (archive entries) ≡ ok (some w))
    × (w.offset ≡ length w.f)
    × (extract (map (λ e. e.asked) (entries ++ entries)) (record {
      f = written_over (close_write (add_all entries w)) (archive entries);
      subf = none;
      offset = 0;
    })
        ≡ ok (map seen (entries ++ entries)))
open_append-extract_example =
    open_append-extract entries entries entries-AllEntries entries-AllEntries

open_append_run :
    open_append (0 ∷ 0 ∷ []) ≡ ok (some (record { f = []; offset = 0; mode_w = false }))
unfolding open_append to_end next decode
open_append_run = refl

-- A size that is no number.
open_append_refused : open_append (replicate 512 97) ≡ raise value_error
unfolding open_append to_end next decode int_octal is_ascii
open_append_refused = refl

abbrev fresh : Writer
fresh = record { f = []; offset = 0; mode_w = true }

fresh-IsAligned : IsAligned fresh
fresh-IsAligned = record { at_end = refl; whole = refl }

addfile-IsAligned_example : IsAligned (addfile note (some (104 ∷ 105 ∷ 33 ∷ [])) fresh)
addfile-IsAligned_example =
    addfile-IsAligned note (some (104 ∷ 105 ∷ 33 ∷ [])) fresh note-IsWritable fresh-IsAligned

close_write-Records_example :
    (length (close_write (addfile folder none fresh)).f % 10240 ≡ 0)
    × (length (addfile folder none fresh).f + 1024
        ≤ length (close_write (addfile folder none fresh)).f)
    × (length (close_write (addfile folder none fresh)).f
        < length (addfile folder none fresh).f + 1024 + 10240)
unfolding addfile
close_write-Records_example =
    close_write-Records (addfile folder none fresh) refl
      (addfile-IsAligned folder none fresh folder-IsWritable fresh-IsAligned)
