-- ===== src/Tar/Header.antt =====
-- The header that `addfile` writes, as `next` decodes it.
use micropython_lib.Prelude.{
  sym, true, ℕ, zero, suc, ◌-◌, ◌<◌, ◌≤◌, ◌≡◌, ◌≢◌, refl, ap, ◌∙◌, arith, false, ◌==◌, ltb,
  if◌then◌else◌, [], ◌∷◌, ◌++◌, some, ok, length, take, drop, replicate, length-append, length-take,
}
use micropython_lib.Prelude.Slices.{
  append_assoc, append-nil, take_past, drop_past, length-replicate,
}
use micropython_lib.Tar.{
  Bytes, TarInfo, mode_of, roundup, rstrip_nul, is_ascii, int_octal, decode, octal, field,
  header_with, header, written_name, written_size, isdir,
}
use micropython_lib.Tar.Digits.{pow8, length-octal, int_octal-octal}

length-field : (w : ℕ) (b : Bytes) → length (field w b) ≡ w
length-field w b = omega (
  arith,
  length-take w (b ++ replicate w 0),
  length-append b (replicate w 0),
  length-replicate w 0,
)

-- A field of exactly its width.
field_full : (w : ℕ) (b : Bytes) → length b ≡ w → field w b ≡ b
field_full w b e = take_past b (replicate w 0) w 0 (omega (arith, e)) ∙ append-nil b

take-replicate : (k n : ℕ) → k ≤ n → take {A = ℕ} k (replicate n 0) ≡ replicate k 0
take-replicate zero n h = refl
take-replicate (suc k) zero h = absurd (omega arith)
take-replicate (suc k) (suc n) h = ap (λ r. 0 ∷ r) (take-replicate k n (omega arith))

field_padded : (w : ℕ) (b : Bytes) → length b ≤ w → field w b ≡ b ++ replicate (w - length b) 0
field_padded w b h =
    take_past b (replicate w 0) w (w - length b) (omega arith)
    ∙ ap (λ r. b ++ r) (take-replicate (w - length b) w (omega arith))

rstrip_nul-zeros : (n : ℕ) → rstrip_nul (replicate n 0) ≡ []
unfolding rstrip_nul
rstrip_nul-zeros zero = refl
rstrip_nul-zeros (suc n) = rw (rstrip_nul-zeros n, rstrip_nul) refl

rstrip_nul-append : (xs : Bytes) (n : ℕ) → rstrip_nul (xs ++ replicate n 0) ≡ rstrip_nul xs
unfolding rstrip_nul
rstrip_nul-append [] n = rstrip_nul-zeros n
rstrip_nul-append (x ∷ xs) n = rw (rstrip_nul-append xs n, rstrip_nul) refl

module _ (name : Bytes) (perm size : ℕ) (t : TarInfo) (chksum : Bytes) where
  type_part : Bytes
  type_part = (if isdir t.mode then 53 else 48) ∷ replicate 355 0

  behind_size : Bytes
  behind_size = field 12 (octal 11 t.mtime ++ 0 ∷ []) ++ (field 8 chksum ++ type_part)

  from_size : Bytes
  from_size = field 12 (octal 11 size ++ 0 ∷ []) ++ behind_size

  from_gid : Bytes
  from_gid = field 8 (octal 7 t.gid ++ 0 ∷ []) ++ from_size

  from_uid : Bytes
  from_uid = field 8 (octal 7 t.uid ++ 0 ∷ []) ++ from_gid

  from_mode : Bytes
  from_mode = field 8 (octal 7 perm ++ 0 ∷ []) ++ from_uid

  length-type_part : length type_part ≡ 356
  unfolding type_part
  length-type_part = omega (arith, length-replicate 355 0)

  length-from_size : length from_size ≡ 388
  unfolding from_size behind_size
  length-from_size = omega (
    arith,
    length-append (field 12 (octal 11 size ++ 0 ∷ []))
        (field 12 (octal 11 t.mtime ++ 0 ∷ []) ++ (field 8 chksum ++ type_part)),
    length-append (field 12 (octal 11 t.mtime ++ 0 ∷ [])) (field 8 chksum ++ type_part),
    length-append (field 8 chksum) type_part,
    length-field 12 (octal 11 size ++ 0 ∷ []),
    length-field 12 (octal 11 t.mtime ++ 0 ∷ []),
    length-field 8 chksum,
    length-type_part,
  )

  length-from_mode : length from_mode ≡ 412
  unfolding from_mode from_uid from_gid
  length-from_mode = omega (
    arith,
    length-append (field 8 (octal 7 perm ++ 0 ∷ []))
        (field 8 (octal 7 t.uid ++ 0 ∷ []) ++ (field 8 (octal 7 t.gid ++ 0 ∷ []) ++ from_size)),
    length-append (field 8 (octal 7 t.uid ++ 0 ∷ []))
        (field 8 (octal 7 t.gid ++ 0 ∷ []) ++ from_size),
    length-append (field 8 (octal 7 t.gid ++ 0 ∷ [])) from_size,
    length-field 8 (octal 7 perm ++ 0 ∷ []),
    length-field 8 (octal 7 t.uid ++ 0 ∷ []),
    length-field 8 (octal 7 t.gid ++ 0 ∷ []),
    length-from_size,
  )

  header_parts : header_with name perm t size chksum ≡ field 100 name ++ from_mode
  unfolding from_mode from_uid from_gid from_size behind_size type_part
  header_parts = refl

  length-header_with : length (header_with name perm t size chksum) ≡ 512
  length-header_with =
      ap length header_parts
      ∙ length-append (field 100 name) from_mode
      ∙ omega (arith, length-field 100 name, length-from_mode)

  name_part : take 100 (header_with name perm t size chksum) ≡ field 100 name
  name_part =
      ap (take 100) header_parts
      ∙ take_past (field 100 name) from_mode 100 0 (omega (arith, length-field 100 name))
      ∙ append-nil (field 100 name)

  drop_to_size : drop 24 from_mode ≡ from_size
  unfolding from_mode from_uid from_gid
  drop_to_size =
      drop_past (field 8 (octal 7 perm ++ 0 ∷ [])) from_uid 24 16
        (omega (arith, length-field 8 (octal 7 perm ++ 0 ∷ [])))
      ∙ drop_past (field 8 (octal 7 t.uid ++ 0 ∷ [])) from_gid 16 8
          (omega (arith, length-field 8 (octal 7 t.uid ++ 0 ∷ [])))
      ∙ drop_past (field 8 (octal 7 t.gid ++ 0 ∷ [])) from_size 8 0
          (omega (arith, length-field 8 (octal 7 t.gid ++ 0 ∷ [])))

  size_first : size < pow8 11 → take 11 from_size ≡ octal 11 size
  unfolding from_size
  size_first small =
      ap (λ b. take 11 (b ++ behind_size))
        (field_full 12 (octal 11 size ++ 0 ∷ [])
          (omega (arith, length-append (octal 11 size) (0 ∷ []), length-octal 11 size small)))
      ∙ ap (take 11) (append_assoc (octal 11 size) (0 ∷ []) behind_size)
      ∙ take_past (octal 11 size) (0 ∷ behind_size) 11 0 (omega (arith, length-octal 11 size small))
      ∙ append-nil (octal 11 size)

  size_part :
      size < pow8 11 → take 11 (drop 124 (header_with name perm t size chksum)) ≡ octal 11 size
  size_part small =
      ap (λ b. take 11 (drop 124 b)) header_parts
      ∙ ap (take 11)
          (drop_past (field 100 name) from_mode 124 24 (omega (arith, length-field 100 name)))
      ∙ ap (take 11) drop_to_size
      ∙ size_first small

pub length-header : (t : TarInfo) → length (header t) ≡ 512
length-header t = length-header_with (written_name t) _ (written_size t) t _

-- A name in ASCII of at least one and at most 100 bytes that neither starts nor ends with NUL.
abbrev pub IsName : Bytes → Type 0
IsName [] = ⊥
IsName (c ∷ s) =
    (c ≢ 0) × (rstrip_nul (c ∷ s) ≡ c ∷ s) × (length (c ∷ s) ≤ 100) × (is_ascii (c ∷ s) ≡ true)

is_ascii-append : (xs : Bytes) (n : ℕ) → is_ascii xs ≡ true → is_ascii (xs ++ replicate n 0) ≡ true
unfolding is_ascii
is_ascii-append [] zero h = refl
is_ascii-append [] (suc n) h = is_ascii-append [] n refl
is_ascii-append (x ∷ xs) n h = ground (arith, h, is_ascii-append xs n)

-- The numbers have no more digits than their fields.
pub record IsWritable (t : TarInfo) : Type 0 where
  pub uid_fits : t.uid < pow8 7
  pub gid_fits : t.gid < pow8 7
  pub mtime_fits : t.mtime < pow8 11
  pub size_fits : written_size t < pow8 11

==_nonzero : (x : ℕ) → x ≢ 0 → (x == 0) ≡ false
==_nonzero x h = ground arith

whole_block : (k : ℕ) → k ≡ 512 → ltb k 512 ≡ false
whole_block k h = ground arith

decode-eq :
    (block name : Bytes) (size c : ℕ) (s : Bytes)
    → block ≡ c ∷ s
    → c ≢ 0
    → length block ≡ 512
    → is_ascii (take 100 block) ≡ true
    → rstrip_nul (take 100 block) ≡ name
    → int_octal (take 11 (drop 124 block)) ≡ ok size
    → decode block
      ≡ ok (
          some (
            record { name = name; mode = mode_of name; size = size },
            record { content_len = size; align = roundup size 512 - size },
          ))
unfolding decode
decode-eq block name size c s e ne l a n z =
    rw (e, ==_nonzero c ne, whole_block (length (c ∷ s)) (ap length (sym e) ∙ l), rw e at a)
      (rw (rw e at n) (rw (rw e at z) refl))

starts_with_name :
    (block s : Bytes) (c : ℕ) → take 100 block ≡ c ∷ s → (r : Bytes) × (block ≡ c ∷ r)
starts_with_name [] s c e = cc
starts_with_name (x ∷ xs) s c e = (xs, ap (λ y. y ∷ xs) (same e))
  where
    same : x ∷ take 99 xs ≡ c ∷ s → x ≡ c
    same q = cc

decode-named :
    (block name : Bytes) (size : ℕ)
    → IsName name
    → length block ≡ 512
    → take 100 block ≡ field 100 name
    → int_octal (take 11 (drop 124 block)) ≡ ok size
    → decode block
      ≡ ok (
          some (
            record { name = name; mode = mode_of name; size = size },
            record { content_len = size; align = roundup size 512 - size },
          ))
decode-named block [] size h l n z = absurd h
decode-named block (c ∷ cs) size h l n z =
    let padded = n ∙ field_padded 100 (c ∷ cs) h.2 in
    let (s, e) = starts_with_name block (cs ++ replicate (100 - length (c ∷ cs)) 0) c padded in
    decode-eq block (c ∷ cs) size c s e h.0 l
      (ap is_ascii padded ∙ is_ascii-append (c ∷ cs) (100 - length (c ∷ cs)) h.3)
      (ap rstrip_nul padded ∙ rstrip_nul-append (c ∷ cs) (100 - length (c ∷ cs)) ∙ h.1) z

-- The header of a member is decoded to its name and its size.
pub decode-header :
    (t : TarInfo)
    → IsName (written_name t)
    → written_size t < pow8 11
    → decode (header t)
      ≡ ok (
          some (
            record {
              name = written_name t;
              mode = mode_of (written_name t);
              size = written_size t;
            },
            record {
              content_len = written_size t;
              align = roundup (written_size t) 512 - written_size t;
            },
          ))
decode-header t h small =
    decode-named (header t) (written_name t) (written_size t) h (length-header t) name_field
      size_field
  where
    name_field : take 100 (header t) ≡ field 100 (written_name t)
    name_field = name_part (written_name t) _ (written_size t) t _

    size_field : int_octal (take 11 (drop 124 (header t))) ≡ ok (written_size t)
    size_field =
        ap int_octal (size_part (written_name t) _ (written_size t) t _ small)
        ∙ int_octal-octal 10 (written_size t) small
