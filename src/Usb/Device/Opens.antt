-- ===== src/Usb/Device/Opens.antt =====
-- `_open_itf_cb`: the loop over the descriptors of an interface.
pub mod Items
use micropython_lib.Prelude.{
  ℕ, zero, suc, ◌+◌, ◌-◌, ◌≤◌, ◌<◌, max, ◌≡◌, ◌≢◌, refl, ap, sym, ◌∙◌, arith, Bool, true, false,
  ◌||◌, ◌==◌, ltb, if◌then◌else◌, List, [], ◌∷◌, ◌++◌, Option, none, some, Result, ok, raise, ◌>>=◌,
  ◌⊎◌, inl, inr, length, get_elem?, drop, length-append, raise-ne-ok, ok-injective, Bool-cases,
  Option-cases, Result-cases, Error, ==_iff,
}
use micropython_lib.Prelude.Dict.{Dict, lookup, contains, insert, contains-insert, lookup-insert}
use micropython_lib.Usb.Device.{
  Device, Transfer, idle, Scan, scan_item, scan_step, scan, open_itf_cb, find_itf, finish_open,
  opened, or_raise,
}
use micropython_lib.Usb.Device.Transfers.{IsKnown}

none-ne-some : {A : Type 0} {a : A} → none ≡ some a → ⊥
none-ne-some h = cc

ended : {s t : Scan} → some (ok s) ≡ some (ok t) → s ≡ t
ended h = cc

raised : {x : Error} {t : Scan} → some (raise x) ≡ some (ok t) → ⊥
raised h = cc

-- What one round does to the two tables.
data Visited (itf : ℕ) (s t : Scan) : Type 0 where
  passed : t.eps ≡ s.eps → t.ep_cbs ≡ s.ep_cbs → Visited itf s t
  found :
      (ep : ℕ) → t.eps ≡ insert ep itf s.eps → t.ep_cbs ≡ insert ep idle s.ep_cbs → Visited itf s t

visit_item :
    (dl dt : ℕ) (third : Option ℕ) (itf : ℕ) (s t : Scan)
    → scan_item dl dt third itf s ≡ ok t
    → Visited itf s t
unfolding scan_item
visit_item dl dt none itf s t e = elim (Bool-cases (dt == 5)) [
  | inl p ↦ absurd (raise-ne-ok (rw p at e))
  | inr p ↦ elim (Bool-cases (dt == 4)) [
    | inl q ↦ absurd (raise-ne-ok (rw (p, q) at e))
    | inr q ↦ let f = ok-injective (rw (p, q) at e) in rw (← f) (passed refl refl)
  ]
]
visit_item dl dt (some x) itf s t e = elim (Bool-cases (dt == 5)) [
  | inl p ↦ let f = ok-injective (rw p at e) in rw (← f) (found x refl refl)
  | inr p ↦ elim (Bool-cases (dt == 4)) [
    | inl q ↦ let f = ok-injective (rw (p, q) at e) in rw (← f) (passed refl refl)
    | inr q ↦ let f = ok-injective (rw (p, q) at e) in rw (← f) (passed refl refl)
  ]
]

visit : (desc : List ℕ) (itf : ℕ) (s t : Scan) → scan_step desc itf s ≡ ok t → Visited itf s t
unfolding scan_step
visit desc itf s t e = elim (Option-cases (get_elem? desc s.offs)) [
  | inl p ↦ absurd (raise-ne-ok (rw p at e))
  | inr (dl, p) ↦ elim (Option-cases (get_elem? desc (s.offs + 1))) [
    | inl q ↦ absurd (raise-ne-ok (rw (p, q) at e))
    | inr (dt, q) ↦ visit_item dl dt (get_elem? desc (s.offs + 2)) itf s t (rw (p, q) at e)
  ]
]

abbrev KnownIn : Dict ℕ → Dict Transfer → Type 0
KnownIn eps cbs = (ep : ℕ) → contains ep eps ≡ true → contains ep cbs ≡ true

Visited-KnownIn :
    (itf : ℕ) (s t : Scan) → Visited itf s t → KnownIn s.eps s.ep_cbs → KnownIn t.eps t.ep_cbs
Visited-KnownIn itf s t (passed p q) k ep c = rw q (k ep (rw p at c))
Visited-KnownIn itf s t (found x p q) k ep c =
    let c' : contains ep (insert x itf s.eps) ≡ true = rw p at c in
    rw q
      (ground (arith, c', k ep, contains-insert ep x itf s.eps, contains-insert ep x idle s.ep_cbs))

scan-KnownIn :
    (rounds : ℕ) (desc : List ℕ) (itf : ℕ) (s t : Scan)
    → scan rounds desc itf s ≡ some (ok t)
    → KnownIn s.eps s.ep_cbs
    → KnownIn t.eps t.ep_cbs
unfolding scan
scan-KnownIn zero desc itf s t e k = elim (Bool-cases (ltb s.offs (length desc))) [
  | inl p ↦ absurd (none-ne-some (rw p at e))
  | inr p ↦ let f : s ≡ t = ended (rw p at e) in rw (← f) k
]
scan-KnownIn (suc rounds) desc itf s t e k = elim (Bool-cases (ltb s.offs (length desc))) [
  | inl p ↦ elim (Result-cases (scan_step desc itf s)) [
    | inl (u, q) ↦
        scan-KnownIn rounds desc itf u t (rw (p, q) at e)
          (Visited-KnownIn itf s u (visit desc itf s u q) k)
    | inr (x, q) ↦ absurd (raised (rw (p, q) at e))
  ]
  | inr p ↦ let f : s ≡ t = ended (rw p at e) in rw (← f) k
]

finish_open-eq :
    (d e : Device) (itf : ℕ) (r : Option ℕ) (o : Option (Result Scan))
    → finish_open d itf o ≡ some (ok (e, r))
    → (s : Scan) × (o ≡ some (ok s)) × (e ≡ record d { eps = s.eps; ep_cbs = s.ep_cbs })
finish_open-eq d e itf r none q = absurd (none-ne-some q)
finish_open-eq d e itf r (some (raise x)) q = cc
finish_open-eq d e itf r (some (ok s)) q = (s, refl, cc)

-- A callback that returns leaves every endpoint with an entry.
pub open_itf_cb-IsKnown :
    (rounds : ℕ) (d e : Device) (desc : List ℕ) (r : Option ℕ)
    → open_itf_cb rounds d desc ≡ some (ok (e, r))
    → IsKnown d
    → IsKnown e
unfolding open_itf_cb
open_itf_cb-IsKnown rounds d e desc r q k = elim (Result-cases (find_itf d desc)) [
  | inr (x, p) ↦ cc (rw (open_itf_cb, p) at q)
  | inl (f, p) ↦
      let (s, found_it, same) = finish_open-eq d e f.1 r _ (rw (open_itf_cb, p) at q) in
      rw same (scan-KnownIn rounds desc f.1 _ s found_it k)
]

-- No endpoint that the descriptors from `offs` on enter has a transfer in flight.
abbrev pub AllFree : (ℕ → ℕ) → List ℕ → ℕ → ℕ → Type 0
AllFree f desc zero offs = Unit {0}
AllFree f desc (suc rounds) offs =
    ((ep : ℕ) → get_elem? desc (offs + 1) ≡ some 5 → get_elem? desc (offs + 2) ≡ some ep → f ep ≡ 0)
    × ((size : ℕ) → get_elem? desc offs ≡ some size → AllFree f desc rounds (offs + size))

-- The entries of the endpoints in flight stay.
abbrev pub Stays : (ℕ → ℕ) → Dict Transfer → Dict Transfer → Type 0
Stays f before after = (ep : ℕ) → f ep ≢ 0 → lookup ep after ≡ lookup ep before

insert-Stays :
    (f : ℕ → ℕ) (x : ℕ) (t : Transfer) (cbs : Dict Transfer)
    → f x ≡ 0
    → Stays f cbs (insert x t cbs)
insert-Stays f x t cbs e ep ne = elim (Bool-cases (ep == x)) [
  | inl p ↦ absurd (ne (ap f ((==_iff ep x).0 p) ∙ e))
  | inr p ↦ lookup-insert ep x t cbs ∙ rw p refl
]

scan_item-Stays :
    (f : ℕ → ℕ) (dl dt : ℕ) (third : Option ℕ) (itf : ℕ) (s t : Scan)
    → ((ep : ℕ) → dt ≡ 5 → third ≡ some ep → f ep ≡ 0)
    → scan_item dl dt third itf s ≡ ok t
    → (t.offs ≡ s.offs + dl) × Stays f s.ep_cbs t.ep_cbs
unfolding scan_item
scan_item-Stays f dl dt none itf s t h e = elim (Bool-cases (dt == 5)) [
  | inl p ↦ absurd (raise-ne-ok (rw p at e))
  | inr p ↦ elim (Bool-cases (dt == 4)) [
    | inl q ↦ absurd (raise-ne-ok (rw (p, q) at e))
    | inr q ↦ let g = ok-injective (rw (p, q) at e) in rw (← g) (refl, λ ep ne. refl)
  ]
]
scan_item-Stays f dl dt (some x) itf s t h e = elim (Bool-cases (dt == 5)) [
  | inl p ↦
      let g = ok-injective (rw p at e) in
      rw (← g) (refl, insert-Stays f x idle s.ep_cbs (h x ((==_iff dt 5).0 p) refl))
  | inr p ↦ elim (Bool-cases (dt == 4)) [
    | inl q ↦ let g = ok-injective (rw (p, q) at e) in rw (← g) (refl, λ ep ne. refl)
    | inr q ↦ let g = ok-injective (rw (p, q) at e) in rw (← g) (refl, λ ep ne. refl)
  ]
]

scan_step-Stays :
    (f : ℕ → ℕ) (desc : List ℕ) (rounds itf : ℕ) (s t : Scan)
    → AllFree f desc (suc rounds) s.offs
    → scan_step desc itf s ≡ ok t
    → AllFree f desc rounds t.offs × Stays f s.ep_cbs t.ep_cbs
unfolding scan_step
scan_step-Stays f desc rounds itf s t h e = elim (Option-cases (get_elem? desc s.offs)) [
  | inl p ↦ absurd (raise-ne-ok (rw p at e))
  | inr (dl, p) ↦ elim (Option-cases (get_elem? desc (s.offs + 1))) [
    | inl q ↦ absurd (raise-ne-ok (rw (p, q) at e))
    | inr (dt, q) ↦
        let (moved, kept) =
          scan_item-Stays f dl dt (get_elem? desc (s.offs + 2)) itf s t
            (λ ep n r. h.0 ep (q ∙ ap some n) r) (rw (p, q) at e) in
        (rw moved (h.1 dl p), kept)
  ]
]

scan-Stays :
    (f : ℕ → ℕ) (rounds : ℕ) (desc : List ℕ) (itf : ℕ) (s t : Scan)
    → AllFree f desc rounds s.offs
    → scan rounds desc itf s ≡ some (ok t)
    → Stays f s.ep_cbs t.ep_cbs
unfolding scan
scan-Stays f zero desc itf s t h e = elim (Bool-cases (ltb s.offs (length desc))) [
  | inl p ↦ absurd (none-ne-some (rw p at e))
  | inr p ↦ let g : s ≡ t = ended (rw p at e) in rw (← g) (λ ep ne. refl)
]
scan-Stays f (suc rounds) desc itf s t h e = elim (Bool-cases (ltb s.offs (length desc))) [
  | inl p ↦ elim (Result-cases (scan_step desc itf s)) [
    | inl (u, q) ↦
        let (free, kept) = scan_step-Stays f desc rounds itf s u h q in
        λ ep ne. scan-Stays f rounds desc itf u t free (rw (p, q) at e) ep ne ∙ kept ep ne
    | inr (x, q) ↦ absurd (raised (rw (p, q) at e))
  ]
  | inr p ↦ let g : s ≡ t = ended (rw p at e) in rw (← g) (λ ep ne. refl)
]

pub open_itf_cb-Stays :
    (f : ℕ → ℕ) (rounds : ℕ) (d e : Device) (desc : List ℕ) (r : Option ℕ)
    → AllFree f desc rounds 0
    → open_itf_cb rounds d desc ≡ some (ok (e, r))
    → Stays f d.ep_cbs e.ep_cbs
unfolding open_itf_cb
open_itf_cb-Stays f rounds d e desc r h q = elim (Result-cases (find_itf d desc)) [
  | inr (x, p) ↦ cc (rw (open_itf_cb, p) at q)
  | inl (g, p) ↦
      let (s, found_it, same) = finish_open-eq d e g.1 r _ (rw (open_itf_cb, p) at q) in
      rw same (scan-Stays f rounds desc g.1 _ s h found_it)
]
