-- ===== src/Prelude/Slices.antt =====
-- Lemmas on the slices of a list and on single assignments.
use Prim.Native.Nat.{ℕ, zero, suc, ◌+◌, ◌-◌, ◌≤◌, ◌<◌}
use mathlib.Core.Path.{◌≡◌, refl, ap, sym, ◌∙◌}
use mathlib.Core.List.{List, [], ◌∷◌, ◌++◌}
use mathlib.Core.Option.{some}
use native.Mathlib.Omega.{arith}
use micropython_lib.Prelude.Lists.{length, get_elem?, set, take, drop, replicate}

module _ {A : Type 0} where
  pub get_drop :
      (xs : List A) (i : ℕ)
      → i < length xs
      → (x : A) × (get_elem? xs i ≡ some x) × (drop i xs ≡ x ∷ drop (suc i) xs)
  get_drop [] i h = absurd (omega arith)
  get_drop (x ∷ xs) zero h = (x, refl, refl)
  get_drop (x ∷ xs) (suc i) h = get_drop xs i (omega arith)

  pub take-set :
      (xs : List A) (i : ℕ) (v : A)
      → i < length xs
      → take (suc i) (set xs i v) ≡ take i xs ++ (v ∷ [])
  take-set [] i v h = absurd (omega arith)
  take-set (x ∷ xs) zero v h = refl
  take-set (x ∷ xs) (suc i) v h = ap (λ ys. x ∷ ys) (take-set xs i v (omega arith))

  pub drop-set : (xs : List A) (i j : ℕ) (v : A) → i < j → drop j (set xs i v) ≡ drop j xs
  drop-set [] i j v h = refl
  drop-set (x ∷ xs) i zero v h = absurd (omega arith)
  drop-set (x ∷ xs) zero (suc j) v h = refl
  drop-set (x ∷ xs) (suc i) (suc j) v h = drop-set xs i j v (omega arith)

  take_nil : (n : ℕ) → take {A = A} n [] ≡ []
  take_nil zero = refl
  take_nil (suc n) = refl

  drop_nil : (n : ℕ) → drop {A = A} n [] ≡ []
  drop_nil zero = refl
  drop_nil (suc n) = refl

  suc_add : (y : A) (ys : List A) (p q : ℕ) → p ≡ suc q → take p (y ∷ ys) ≡ y ∷ take q ys
  suc_add y ys p q e = rw e refl

  pub take-add : (xs : List A) (m k : ℕ) → take (m + k) xs ≡ take m xs ++ take k (drop m xs)
  take-add xs zero k = ap (λ z. take z xs) (omega arith)
  take-add [] (suc m) k = take_nil (suc m + k) ∙ sym (take_nil k)
  take-add (x ∷ xs) (suc m) k =
      suc_add x xs (suc m + k) (m + k) (omega arith) ∙ ap (λ ys. x ∷ ys) (take-add xs m k)

  none_left : (xs : List A) (k : ℕ) → k ≡ 0 → [] ≡ take k xs
  none_left xs k e = rw e refl

  pub drop-take : (xs : List A) (m n : ℕ) → drop m (take n xs) ≡ take (n - m) (drop m xs)
  drop-take xs zero n = ap (λ z. take z xs) (omega arith)
  drop-take [] (suc m) zero = sym (take_nil (0 - suc m))
  drop-take [] (suc m) (suc n) = sym (take_nil (suc n - suc m))
  drop-take (x ∷ xs) (suc m) zero = none_left (drop m xs) (0 - suc m) (omega arith)
  drop-take (x ∷ xs) (suc m) (suc n) = drop-take xs m n ∙ ap (λ z. take z (drop m xs)) (omega arith)

  pub take-append_left : (xs ys : List A) (n : ℕ) → n ≤ length xs → take n (xs ++ ys) ≡ take n xs
  take-append_left xs ys zero h = refl
  take-append_left [] ys (suc n) h = absurd (omega arith)
  take-append_left (x ∷ xs) ys (suc n) h =
      ap (λ zs. x ∷ zs) (take-append_left xs ys n (omega arith))

  pub drop-append_all : (xs ys : List A) → drop (length xs) (xs ++ ys) ≡ ys
  drop-append_all [] ys = refl
  drop-append_all (x ∷ xs) ys = drop-append_all xs ys

  pub take-take : (xs : List A) (m n : ℕ) → m ≤ n → take m (take n xs) ≡ take m xs
  take-take xs zero n h = refl
  take-take xs (suc m) zero h = absurd (omega arith)
  take-take [] (suc m) (suc n) h = refl
  take-take (x ∷ xs) (suc m) (suc n) h = ap (λ ys. x ∷ ys) (take-take xs m n (omega arith))

  pub append_assoc : (xs ys zs : List A) → (xs ++ ys) ++ zs ≡ xs ++ (ys ++ zs)
  append_assoc [] ys zs = refl
  append_assoc (x ∷ xs) ys zs = ap (λ us. x ∷ us) (append_assoc xs ys zs)

  pub append-nil : (xs : List A) → xs ++ [] ≡ xs
  append-nil [] = refl
  append-nil (x ∷ xs) = ap (λ ys. x ∷ ys) (append-nil xs)

  pub take_all : (xs : List A) (n : ℕ) → length xs ≤ n → take n xs ≡ xs
  take_all [] zero h = refl
  take_all [] (suc n) h = refl
  take_all (x ∷ xs) zero h = absurd (omega arith)
  take_all (x ∷ xs) (suc n) h = ap (λ ys. x ∷ ys) (take_all xs n (omega arith))

  pub take_past :
      (xs ys : List A) (m n : ℕ) → m ≡ length xs + n → take m (xs ++ ys) ≡ xs ++ take n ys
  take_past [] ys m n e = ap (λ k. take k ys) (omega (arith, e))
  take_past (x ∷ xs) ys zero n e = absurd (omega arith)
  take_past (x ∷ xs) ys (suc m) n e = ap (λ zs. x ∷ zs) (take_past xs ys m n (omega arith))

  pub drop_past : (xs ys : List A) (m n : ℕ) → m ≡ length xs + n → drop m (xs ++ ys) ≡ drop n ys
  drop_past [] ys m n e = ap (λ k. drop k ys) (omega (arith, e))
  drop_past (x ∷ xs) ys zero n e = absurd (omega arith)
  drop_past (x ∷ xs) ys (suc m) n e = drop_past xs ys m n (omega arith)

  pub drop-drop : (xs : List A) (m n k : ℕ) → k ≡ m + n → drop n (drop m xs) ≡ drop k xs
  drop-drop xs zero n k e = ap (λ j. drop j xs) (omega (arith, e))
  drop-drop [] (suc m) n k e = drop_nil n ∙ sym (drop_nil k)
  drop-drop (x ∷ xs) (suc m) n zero e = absurd (omega arith)
  drop-drop (x ∷ xs) (suc m) n (suc k) e = drop-drop xs m n k (omega arith)

  pub drop-append_left :
      (xs ys : List A) (n : ℕ) → n ≤ length xs → drop n (xs ++ ys) ≡ drop n xs ++ ys
  drop-append_left xs ys zero h = refl
  drop-append_left [] ys (suc n) h = absurd (omega arith)
  drop-append_left (x ∷ xs) ys (suc n) h = drop-append_left xs ys n (omega arith)

  pub drop_all : (xs : List A) (n : ℕ) → length xs ≤ n → drop n xs ≡ []
  drop_all [] n h = drop_nil n
  drop_all (x ∷ xs) zero h = absurd (omega arith)
  drop_all (x ∷ xs) (suc n) h = drop_all xs n (omega arith)

-- The two parts of a list at `m`.
pub take_split : {A : Type 0} (xs : List A) (m : ℕ) → take m xs ++ drop m xs ≡ xs
take_split xs zero = refl
take_split [] (suc m) = refl
take_split (x ∷ xs) (suc m) = ap (λ ys. x ∷ ys) (take_split xs m)

pub length-replicate : (n x : ℕ) → length (replicate n x) ≡ n
length-replicate zero x = refl
length-replicate (suc n) x = ap suc (length-replicate n x)
