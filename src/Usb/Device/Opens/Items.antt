-- ===== src/Usb/Device/Opens/Items.antt =====
-- What `_open_itf_cb` does with a sequence of whole descriptors, and that its loop ends.
use micropython_lib.Prelude.{
  ℕ, zero, suc, ◌+◌, ◌≤◌, ◌<◌, max, ◌≡◌, refl, ap, sym, ◌∙◌, arith, true, false, ◌==◌, ltb,
  if◌then◌else◌, List, [], ◌∷◌, ◌++◌, some, ok, length, get_elem?, drop, length-drop, Option, none,
  ◌⊎◌, inl, inr, Bool-cases, ==_iff,
}
use micropython_lib.Prelude.Dict.{lookup, insert}
use micropython_lib.Prelude.Slices.{drop-append_all, drop-drop}
use micropython_lib.Usb.Device.{
  Device, idle, Scan, scan_item, scan_step, scan, open_itf_cb, find_itf, opened, same_id,
}

-- A descriptor of at least three bytes: its type, its third byte, and the rest.
pub record Item : Type 0 where
  pub kind : ℕ
  pub third : ℕ
  pub rest : List ℕ

abbrev pub size : Item → ℕ
size i = 3 + length i.rest

abbrev pub item_bytes : Item → List ℕ
item_bytes i = size i ∷ i.kind ∷ i.third ∷ i.rest

abbrev pub all_bytes : List Item → List ℕ
all_bytes [] = []
all_bytes (i ∷ is) = item_bytes i ++ all_bytes is

-- The endpoints among the descriptors are entered, and the highest interface number is kept.
abbrev pub visit_one : Item → ℕ → Scan → Scan
visit_one i itf s = record {
  offs = s.offs + size i;
  max_itf =
      if i.kind == 5 then s.max_itf else if i.kind == 4 then max s.max_itf i.third else s.max_itf;
  eps = if i.kind == 5 then insert i.third itf s.eps else s.eps;
  ep_cbs = if i.kind == 5 then insert i.third idle s.ep_cbs else s.ep_cbs;
}

abbrev pub visit_all : List Item → ℕ → Scan → Scan
visit_all [] itf s = s
visit_all (i ∷ is) itf s = visit_all is itf (visit_one i itf s)

get-drop : (xs : List ℕ) (n k m : ℕ) → m ≡ n + k → get_elem? xs m ≡ get_elem? (drop n xs) k
get-drop xs zero k m e = ap (get_elem? xs) (omega (arith, e))
get-drop [] (suc n) zero m e = refl
get-drop [] (suc n) (suc k) m e = refl
get-drop (x ∷ xs) (suc n) k zero e = absurd (omega arith)
get-drop (x ∷ xs) (suc n) k (suc m) e = get-drop xs n k m (omega arith)

scan_item_one :
    (i : Item) (itf : ℕ) (s : Scan)
    → scan_item (size i) i.kind (some i.third) itf s ≡ ok (visit_one i itf s)
unfolding scan_item
scan_item_one i itf s = ground arith

scan_step_one :
    (desc : List ℕ) (i : Item) (after : List ℕ) (itf : ℕ) (s : Scan)
    → drop s.offs desc ≡ item_bytes i ++ after
    → scan_step desc itf s ≡ ok (visit_one i itf s)
unfolding scan_step
scan_step_one desc i after itf s e =
    rw (at 0 s.offs (omega arith), at 1 (s.offs + 1) refl, at 2 (s.offs + 2) refl)
      (scan_item_one i itf s)
  where
    at : (k m : ℕ) → m ≡ s.offs + k → get_elem? desc m ≡ get_elem? (item_bytes i ++ after) k
    at k m q = get-drop desc s.offs k m q ∙ ap (λ xs. get_elem? xs k) e

nothing_left : (desc : List ℕ) (n : ℕ) → drop n desc ≡ [] → ltb n (length desc) ≡ false
nothing_left desc n e =
    let none_left : length desc ≤ n = omega (arith, length-drop n desc, ap length e) in ground arith

something_left :
    (desc : List ℕ) (n x : ℕ) (xs : List ℕ) → drop n desc ≡ x ∷ xs → ltb n (length desc) ≡ true
something_left desc n x xs e =
    let some_left : n < length desc = omega (arith, length-drop n desc, ap length e) in ground arith

scan_all :
    (is : List Item) (rounds : ℕ) (desc : List ℕ) (itf : ℕ) (s : Scan)
    → length is ≤ rounds
    → drop s.offs desc ≡ all_bytes is
    → scan rounds desc itf s ≡ some (ok (visit_all is itf s))
unfolding scan
scan_all [] zero desc itf s h e = rw (nothing_left desc s.offs e) refl
scan_all [] (suc rounds) desc itf s h e = rw (nothing_left desc s.offs e) refl
scan_all (i ∷ is) zero desc itf s h e = absurd (omega arith)
scan_all (i ∷ is) (suc rounds) desc itf s h e =
    rw (something_left desc s.offs _ _ e, scan_step_one desc i (all_bytes is) itf s e)
      (scan_all is rounds desc itf (visit_one i itf s) (omega arith) (
        sym (drop-drop desc s.offs (size i) (s.offs + size i) refl)
        ∙ ap (drop (size i)) e
        ∙ ap (λ n. drop n (all_bytes (i ∷ is))) {y = length (item_bytes i)} (omega arith)
        ∙ drop-append_all (item_bytes i) (all_bytes is)))

find_itf_first :
    (d : Device) (itf : ℕ) (first : Item) (is : List Item)
    → lookup first.third d.itfs ≡ some itf
    → find_itf d (all_bytes (first ∷ is)) ≡ ok (first.third, itf)
unfolding find_itf
find_itf_first d itf first is e = rw (find_itf, e) refl

-- The tables and the numbers behind the descriptors.
abbrev pub found : Device → ℕ → Item → List Item → Scan
found d itf first is =
    visit_all (first ∷ is) itf
      (record { offs = 0; max_itf = first.third; eps = d.eps; ep_cbs = d.ep_cbs })

open_itf_cb-eq :
    (d : Device) (itf : ℕ) (first : Item) (is : List Item) (rounds : ℕ)
    → lookup first.third d.itfs ≡ some itf
    → length (first ∷ is) ≤ rounds
    → open_itf_cb rounds d (all_bytes (first ∷ is))
      ≡ some (ok (opened d itf (found d itf first is)))
unfolding open_itf_cb
open_itf_cb-eq d itf first is rounds e h =
    rw
      (
        open_itf_cb,
        find_itf_first d itf first is e,
        scan_all (first ∷ is) rounds (all_bytes (first ∷ is)) itf
            (record { offs = 0; max_itf = first.third; eps = d.eps; ep_cbs = d.ep_cbs }) h refl,
      )
      refl

-- Whose `on_open` is called: that of `itf` or none, and none where the next number is its own.
pub record Called (d : Device) (itf : ℕ) (s : Scan) (r : Option ℕ) : Type 0 where
  pub own : (r ≡ none) ⊎ (r ≡ some itf)
  pub skipped : r ≡ none → lookup (s.max_itf + 1) d.itfs ≡ some itf
  pub shared : lookup (s.max_itf + 1) d.itfs ≡ some itf → r ≡ none

abbrev chosen : Option ℕ → ℕ → Option ℕ
chosen o itf = if same_id o itf then none else some itf

chosen-none : (o : Option ℕ) (itf : ℕ) → chosen o itf ≡ none → o ≡ some itf
chosen-none none itf e = cc
chosen-none (some n) itf e = elim (Bool-cases (n == itf)) [
  | inl p ↦ ap some ((==_iff n itf).0 p)
  | inr p ↦ absurd (cc (rw p at e))
]

chosen-some : (o : Option ℕ) (itf : ℕ) → o ≡ some itf → chosen o itf ≡ none
chosen-some o itf e = rw e (rw ((==_iff itf itf).1 refl) refl)

chosen-own : (o : Option ℕ) (itf : ℕ) → (chosen o itf ≡ none) ⊎ (chosen o itf ≡ some itf)
chosen-own o itf = elim (Bool-cases (same_id o itf)) [
  | inl p ↦ inl (rw p refl)
  | inr p ↦ inr (rw p refl)
]

-- On whole descriptors of at least three bytes, the first of which has the number of a registered
-- interface as its third byte, `_open_itf_cb` ends within as many rounds as there are descriptors; it
-- enters every endpoint for the interface with no transfer, and calls `on_open` of the interface and
-- no other, and does so exactly where the number behind the highest one found is not its own too.
pub open_itf_cb_lem :
    (d : Device) (itf : ℕ) (first : Item) (is : List Item) (rounds : ℕ)
    → lookup first.third d.itfs ≡ some itf
    → length (first ∷ is) ≤ rounds
    → let s = found d itf first is in
      (r : Option ℕ) × (open_itf_cb rounds d (all_bytes (first ∷ is))
        ≡ some (ok (record d { eps = s.eps; ep_cbs = s.ep_cbs }, r)))
      × Called d itf s r
open_itf_cb_lem d itf first is rounds e h =
    let next = lookup ((found d itf first is).max_itf + 1) d.itfs in
    (
      chosen next itf,
      open_itf_cb-eq d itf first is rounds e h,
      record {
        own = chosen-own next itf;
        skipped = chosen-none next itf;
        shared = chosen-some next itf;
      },
    )
