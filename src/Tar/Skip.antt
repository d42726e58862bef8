-- ===== src/Tar/Skip.antt =====
-- `skip` and `read` of a section of an archive.
use micropython_lib.Prelude.{
  ℕ, zero, suc, ◌+◌, ◌-◌, ◌≤◌, ◌≡◌, refl, ap, ◌∙◌, arith, ltb, leb, ◌==◌, min, if◌then◌else◌, some,
  inl, inr, Bool-cases, length, take, drop, length-take,
}
use micropython_lib.Prelude.Slices.{drop-drop}
use micropython_lib.Tar.{Bytes, TarFile, FileSection, read, skip_loop, skip}

-- The loop drops `sz` bytes, whatever their number.
skip_loop_lem : (rounds sz : ℕ) (f : Bytes) → sz ≤ rounds → skip_loop rounds sz f ≡ drop sz f
unfolding skip_loop
skip_loop_lem zero zero f h = refl
skip_loop_lem zero (suc sz) f h = absurd (omega arith)
skip_loop_lem (suc rounds) sz f h = elim (Bool-cases (sz == 0)) [
  | inl e ↦ rw e (ap (λ n. drop n f) {x = 0} (ground (arith, e)))
  | inr e ↦ elim (Bool-cases (leb 16 sz)) [
    | inl g ↦
        rw (e, g)
          (skip_loop_lem rounds (sz - 16) (drop 16 f) (ground (arith, e, g))
            ∙ drop-drop f 16 (sz - 16) sz (ground (arith, g)))
    | inr g ↦ rw (e, g) refl
  ]
]

pub skip_lem : (s : FileSection) (f : Bytes) → skip (some s) f ≡ drop (s.content_len + s.align) f
skip_lem s f = skip_loop_lem (s.content_len + s.align) (s.content_len + s.align) f (omega arith)

-- After a read of any number of bytes the next member starts where it did before.
pub record ReadOf (k : ℕ) (t : TarFile) (s : FileSection) : Type 0 where
  pub got : (read k t).0 ≡ take (min k s.content_len) t.f
  pub rest : skip (read k t).1.subf (read k t).1.f ≡ drop (s.content_len + s.align) t.f

module _ (k : ℕ) (f : Bytes) (s : FileSection) (offset : ℕ)
    (enough : s.content_len ≤ length f) where
  abbrev asked : ℕ
  asked = if ltb s.content_len k then s.content_len else k

  asked-min : asked ≡ min k s.content_len
  asked-min = ground arith

  length-got : length (take asked f) ≡ asked
  length-got = length-take asked f ∙ omega (arith, asked-min)

  pub read_lem : ReadOf k (record { f = f; subf = some s; offset = offset }) s
  unfolding read
  read_lem = elim (Bool-cases (s.content_len == 0)) [
    | inl e ↦ record {
      got = rw (e, read) (ap (λ n. take n f) {x = 0} (ground (arith, e)));
      rest = rw (e, read) (skip_lem s f);
    }
    | inr e ↦ record {
      got = rw (e, read) (ap (λ n. take n f) asked-min);
      rest =
          rw (e, read)
            (skip_lem (record s { content_len = s.content_len - length (take asked f) })
                (drop asked f)
              ∙ drop-drop f asked (s.content_len - length (take asked f) + s.align)
                  (s.content_len + s.align) (omega (arith, length-got, asked-min)));
    }
  ]
