-- ===== src/Tar/Ends.antt =====
-- The loop of `_open_write` in mode "a": it comes to an end for any file.
use micropython_lib.Prelude.{
  false, ℕ, zero, suc, ◌+◌, ◌<◌, ◌≤◌, ◌≡◌, refl, ap, arith, [], ◌∷◌, Option, none, some, Result,
  Error, ok, raise, ◌>>=◌, ◌⊎◌, inl, inr, length, take, drop, length-drop,
}
use micropython_lib.Tar.{
  Bytes, Member, FileSection, TarFile, Writer, decode, advance, skip, next, to_end, open_from,
  open_append,
}
use micropython_lib.Tar.Skip.{skip_lem}

length-skip : (s : Option FileSection) (f : Bytes) → length (skip s f) ≤ length f
length-skip none f = omega arith
length-skip (some s) f =
    omega (arith, ap length (skip_lem s f), length-drop (s.content_len + s.align) f)

-- What `next` returns, and that a member takes bytes of the file.
abbrev Advanced : TarFile → Result (Option Member × TarFile) → Type 0
Advanced t (raise e) = Unit {0}
Advanced t (ok (none, u)) = Unit {0}
Advanced t (ok (some m, u)) = length u.f < length t.f

found-Advanced :
    (found : Result (Option (Member × FileSection))) (t : TarFile) (f : Bytes)
    → length (drop 512 f) < length t.f
    → Advanced t (found >>= λ found. ok (advance t f found))
found-Advanced (raise e) t f h = tt
found-Advanced (ok none) t f h = tt
found-Advanced (ok (some (m, s))) t f h = h

empty-Advanced :
    (t : TarFile) → Advanced t (decode (take 512 []) >>= λ found. ok (advance t [] found))
unfolding decode
empty-Advanced t = tt

decode-Advanced :
    (t : TarFile) (f : Bytes)
    → length f ≤ length t.f
    → Advanced t (decode (take 512 f) >>= λ found. ok (advance t f found))
decode-Advanced t [] h = empty-Advanced t
decode-Advanced t (c ∷ f) h =
    found-Advanced (decode (take 512 (c ∷ f))) t (c ∷ f) (omega (arith, h, length-drop 512 (c ∷ f)))

next-Advanced : (t : TarFile) → Advanced t (next t)
unfolding next
next-Advanced t = decode-Advanced t (skip t.subf t.f) (length-skip t.subf t.f)

abbrev Finished : Result (Option ℕ) → Type 0
Finished (raise e) = Unit {0}
Finished (ok none) = ⊥
Finished (ok (some n)) = Unit {0}

ended :
    (rounds : ℕ) (t : TarFile) (r : Result (Option Member × TarFile))
    → ((u : TarFile) → length u.f < length t.f → Finished (to_end rounds u))
    → Advanced t r
    → Finished (r >>= λ (m, u). elim m [ none ↦ ok (some u.offset) | some x ↦ to_end rounds u ])
ended rounds t (raise e) h a = tt
ended rounds t (ok (none, u)) h a = tt
ended rounds t (ok (some m, u)) h a = h u a

-- Enough rounds: one for each byte that is left, and one more.
to_end-Finished : (rounds : ℕ) (t : TarFile) → length t.f < rounds → Finished (to_end rounds t)
unfolding to_end
to_end-Finished zero t h = absurd (omega arith)
to_end-Finished (suc rounds) t h =
    ended rounds t (next t) (λ u less. to_end-Finished rounds u (omega (arith, h, less)))
      (next-Advanced t)

-- Opening a file in mode "a" comes to an end: it gives a writer or raises, or meets a header that is
-- not modelled, whatever the file.
pub open_append_total :
    (file : Bytes)
    → ((e : Error) × (open_append file ≡ raise e))
      ⊎ ((w : Writer) × (open_append file ≡ ok (some w)))
unfolding open_append
open_append_total file =
    opened (to_end (suc (length file)) start)
      (to_end-Finished (suc (length file)) start (omega arith))
  where
    start : TarFile
    start = record { f = file; subf = none; offset = 0 }

    opened :
        (r : Result (Option ℕ))
        → Finished r
        → ((e : Error) × (open_from file r ≡ raise e))
          ⊎ ((w : Writer) × (open_from file r ≡ ok (some w)))
    opened (raise e) f = inl (e, refl)
    opened (ok none) f = absurd f
    opened (ok (some n)) f = inr (record { f = take n file; offset = n; mode_w = false }, refl)
