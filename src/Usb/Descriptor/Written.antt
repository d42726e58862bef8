-- ===== src/Usb/Descriptor/Written.antt =====
-- What a sequence of calls writes: the pass that only counts and the pass that writes agree.
use micropython_lib.Prelude.{
  ℕ, suc, ◌+◌, ◌≤◌, ◌<◌, max, ◌≡◌, refl, ap, sym, ◌∙◌, ◌++◌, List, [], ◌∷◌, none, some, ok, ◌>>=◌,
  ltb, false, length, take, drop, arith, length-append, length-take, length-drop,
}
use micropython_lib.Prelude.Slices.{
  take_past, drop_past, drop-drop, append_assoc, append-nil, take_split,
}
use micropython_lib.Usb.Descriptor.{
  Descriptor, Field, packed, calcsize, Call, packs, extends, interfaces, endpoints, associates,
  call, calls, pack, pack_into, extend, interface, endpoint, interface_assoc, overwrite, into,
  store, extended, interface_fields, endpoint_fields, interface_assoc_fields,
}

-- The bytes that a call appends.
abbrev pub bytes_of : Call → List ℕ
bytes_of (packs fs) = packed fs
bytes_of (extends xs) = xs
bytes_of (interfaces a b c e f g) = packed (interface_fields a b c e f g)
bytes_of (endpoints a b c e) = packed (endpoint_fields a b c e)
bytes_of (associates a b c e f g) = packed (interface_assoc_fields a b c e f g)

abbrev pub all_bytes : List Call → List ℕ
all_bytes [] = []
all_bytes (c ∷ cs) = bytes_of c ++ all_bytes cs

abbrev pub counting : ℕ → Descriptor
counting o = record { b = none; o = o }

abbrev pub writing : List ℕ → ℕ → Descriptor
writing b o = record { b = some b; o = o }

max_add : (o n : ℕ) → max o (o + n) ≡ o + n
max_add o n = omega arith

pack-counting : (fs : List Field) (o : ℕ) → pack (counting o) fs ≡ ok (counting (o + calcsize fs))
unfolding pack pack_into into
pack-counting fs o = ap (λ n. ok (counting n)) (max_add o (calcsize fs))

call-counting : (c : Call) (o : ℕ) → call c (counting o) ≡ ok (counting (o + length (bytes_of c)))
unfolding call extend extended interface endpoint interface_assoc
call-counting (packs fs) o = pack-counting fs o
call-counting (extends xs) o = refl
call-counting (interfaces a b c e f g) o = pack-counting (interface_fields a b c e f g) o
call-counting (endpoints a b c e) o = pack-counting (endpoint_fields a b c e) o
call-counting (associates a b c e f g) o = pack-counting (interface_assoc_fields a b c e f g) o

pub calls-counting :
    (cs : List Call) (o : ℕ) → calls cs (counting o) ≡ ok (counting (o + length (all_bytes cs)))
unfolding calls
calls-counting [] o = ap (λ n. ok (counting n)) (omega arith)
calls-counting (c ∷ cs) o =
    rw (call-counting c o, ◌>>=◌)
      (calls-counting cs (o + length (bytes_of c))
        ∙ ap (λ n. ok (counting n)) (omega (arith, length-append (bytes_of c) (all_bytes cs))))

ltb-false : (a b : ℕ) → b ≤ a → ltb a b ≡ false
ltb-false a b h = ground arith

pub pack_into-writing :
    (fs : List Field) (x : ℕ) (b : List ℕ) (o offs : ℕ)
    → offs + calcsize fs ≤ suc (length b)
    → pack_into (writing (x ∷ b) o) fs offs
      ≡ ok (writing (overwrite (x ∷ b) offs (packed fs)) (max o (offs + calcsize fs)))
unfolding pack_into into store
pack_into-writing fs x b o offs h =
    rw (ltb-false (suc (length b)) (offs + calcsize fs) h, ◌>>=◌) refl

pack-writing :
    (fs : List Field) (x : ℕ) (b : List ℕ) (o : ℕ)
    → o + calcsize fs ≤ suc (length b)
    → pack (writing (x ∷ b) o) fs ≡ ok (writing (overwrite (x ∷ b) o (packed fs)) (o + calcsize fs))
unfolding pack
pack-writing fs x b o h =
    pack_into-writing fs x b o o h
    ∙ ap (λ n. ok (writing (overwrite (x ∷ b) o (packed fs)) n)) (max_add o (calcsize fs))

call-writing :
    (c : Call) (x : ℕ) (b : List ℕ) (o : ℕ)
    → o + length (bytes_of c) ≤ suc (length b)
    → call c (writing (x ∷ b) o)
      ≡ ok (writing (overwrite (x ∷ b) o (bytes_of c)) (o + length (bytes_of c)))
unfolding call extend extended interface endpoint interface_assoc
call-writing (packs fs) x b o h = pack-writing fs x b o h
call-writing (extends xs) x b o h = refl
call-writing (interfaces p q r s t u) x b o h = pack-writing (interface_fields p q r s t u) x b o h
call-writing (endpoints p q r s) x b o h = pack-writing (endpoint_fields p q r s) x b o h
call-writing (associates p q r s t u) x b o h =
    pack-writing (interface_assoc_fields p q r s t u) x b o h

pub length-overwrite :
    (b : List ℕ) (o : ℕ) (xs : List ℕ)
    → o + length xs ≤ length b
    → length (overwrite b o xs) ≡ length b
length-overwrite b o xs h = omega (
  arith,
  length-append (take o b) (xs ++ drop (o + length xs) b),
  length-append xs (drop (o + length xs) b),
  length-take o b,
  length-drop (o + length xs) b,
)

-- Two writes, the second behind the first, are one.
pub overwrite-overwrite :
    (b : List ℕ) (o : ℕ) (xs ys : List ℕ)
    → o + length xs ≤ length b
    → overwrite (overwrite b o xs) (o + length xs) ys ≡ overwrite b o (xs ++ ys)
overwrite-overwrite b o xs ys h =
    rw (front, back) (append_assoc (take o b) xs (ys ++ drop (o + length (xs ++ ys)) b) ∙ regroup)
  where
    rest : List ℕ
    rest = drop (o + length xs) b

    front : take (o + length xs) (overwrite b o xs) ≡ take o b ++ xs
    front =
        take_past (take o b) (xs ++ rest) (o + length xs) (length xs)
          (omega (arith, length-take o b))
        ∙ ap (λ zs. take o b ++ zs) (take_past xs rest (length xs) 0 (omega arith) ∙ append-nil xs)

    back : drop (o + length xs + length ys) (overwrite b o xs) ≡ drop (o + length (xs ++ ys)) b
    back =
        drop_past (take o b) (xs ++ rest) (o + length xs + length ys) (length xs + length ys)
          (omega (arith, length-take o b))
        ∙ drop_past xs rest (length xs + length ys) (length ys) (omega arith)
        ∙ drop-drop b (o + length xs) (length ys) (o + length (xs ++ ys))
            (omega (arith, length-append xs ys))

    regroup :
        take o b ++ (xs ++ (ys ++ drop (o + length (xs ++ ys)) b))
        ≡ take o b ++ ((xs ++ ys) ++ drop (o + length (xs ++ ys)) b)
    regroup = ap (λ zs. take o b ++ zs) (sym (append_assoc xs ys (drop (o + length (xs ++ ys)) b)))

pub overwrite-nil : (b : List ℕ) (o : ℕ) → overwrite b o [] ≡ b
overwrite-nil b o = ap (λ k. take o b ++ drop k b) (omega arith) ∙ take_split b o

call-writing_in :
    (c : Call) (b : List ℕ) (o : ℕ)
    → 0 < length b
    → o + length (bytes_of c) ≤ length b
    → call c (writing b o) ≡ ok (writing (overwrite b o (bytes_of c)) (o + length (bytes_of c)))
call-writing_in c [] o p h = absurd (omega arith)
call-writing_in c (x ∷ b) o p h = call-writing c x b o h

made : {b c : List ℕ} {o n : ℕ} → b ≡ c → o ≡ n → ok (writing b o) ≡ ok (writing c n)
made e f = rw (e, f) refl

-- The calls write their bytes one behind the other from the offset on, and touch nothing else.
pub calls-writing :
    (cs : List Call) (b : List ℕ) (o : ℕ)
    → 0 < length b
    → o + length (all_bytes cs) ≤ length b
    → calls cs (writing b o)
      ≡ ok (writing (overwrite b o (all_bytes cs)) (o + length (all_bytes cs)))
unfolding calls
calls-writing [] b o p h = made (sym (overwrite-nil b o)) (omega arith)
calls-writing (c ∷ cs) b o p h =
    rw (call-writing_in c b o p (omega (arith, length-append (bytes_of c) (all_bytes cs))), ◌>>=◌)
      (calls-writing cs (overwrite b o (bytes_of c)) (o + length (bytes_of c)) (omega (arith, same))
          (omega (arith, same, grown))
        ∙ made (overwrite-overwrite b o (bytes_of c) (all_bytes cs) (omega (arith, grown)))
            (omega (arith, grown)))
  where
    grown : length (bytes_of c ++ all_bytes cs) ≡ length (bytes_of c) + length (all_bytes cs)
    grown = length-append (bytes_of c) (all_bytes cs)

    same : length (overwrite b o (bytes_of c)) ≡ length b
    same = length-overwrite b o (bytes_of c) (omega (arith, grown))

-- A pack at a given offset overwrites there.
pub pack_into-writing_in :
    (fs : List Field) (b : List ℕ) (o offs : ℕ)
    → 0 < length b
    → offs + calcsize fs ≤ length b
    → pack_into (writing b o) fs offs
      ≡ ok (writing (overwrite b offs (packed fs)) (max o (offs + calcsize fs)))
pack_into-writing_in fs [] o offs p h = absurd (omega arith)
pack_into-writing_in fs (x ∷ b) o offs p h = pack_into-writing fs x b o offs h

pub extend-counting : (o : ℕ) (xs : List ℕ) → extend (counting o) xs ≡ counting (o + length xs)
unfolding extend extended
extend-counting o xs = refl

pub extend-writing :
    (b : List ℕ) (o : ℕ) (xs : List ℕ)
    → 0 < length b
    → extend (writing b o) xs ≡ writing (overwrite b o xs) (o + length xs)
unfolding extend extended
extend-writing [] o xs p = absurd (omega arith)
extend-writing (x ∷ b) o xs p = refl
