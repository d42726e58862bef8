-- ===== src/Usb/Config/Passes.antt =====
-- The two passes of `config` over the interfaces: the first counts the bytes that the second writes.
use micropython_lib.Prelude.{
  ℕ, ◌+◌, ◌≤◌, ◌<◌, ◌≡◌, refl, ap, ◌∙◌, ◌++◌, List, [], ◌∷◌, none, ok, ◌>>=◌, length, replicate,
  arith, length-append, Option,
}
use micropython_lib.Prelude.Slices.{drop_all, append-nil, length-replicate}
use micropython_lib.Usb.Descriptor.{Descriptor, descriptor, overwrite, extend}
use micropython_lib.Usb.Descriptor.Written.{
  all_bytes, counting, writing, calls-counting, calls-writing, length-overwrite,
  overwrite-overwrite, overwrite-nil, extend-counting, extend-writing,
}
use micropython_lib.Usb.Config.{
  Builtin, Interface, Progress, step_pass, count_pass, write_pass, Options, initial_cfg, start,
}
use micropython_lib.Usb.Config.Tables.{table}

-- The bytes that the dummy pass counts, and those that the second pass writes.
abbrev dummy_bytes : Interface → List ℕ
dummy_bytes i = all_bytes (i.desc_cfg 0 0 []).0

abbrev own_bytes : Interface → Progress → List ℕ
own_bytes i p = all_bytes (i.desc_cfg p.itf_num p.ep_num p.strs).0

-- `desc_cfg` adds descriptors of the same size each time, as its documentation asks.
abbrev pub IsStable : Interface → Type 0
IsStable i =
    (num ep : ℕ) (strs : List (Option (List ℕ)))
    → length (all_bytes (i.desc_cfg num ep strs).0) ≡ length (dummy_bytes i)

abbrev pub AllStable : List Interface → Type 0
AllStable [] = Unit {0}
AllStable (i ∷ is) = IsStable i × AllStable is

abbrev counted : List Interface → ℕ
counted [] = 0
counted (i ∷ is) = length (dummy_bytes i) + counted is

-- The bytes of all interfaces, each with the numbers and the strings that are left when its turn comes.
abbrev pub bodies : List Interface → Progress → List ℕ
bodies [] p = []
bodies (i ∷ is) p = own_bytes i p ++ bodies is (step_pass i p p.desc)

abbrev pub numbers : List Interface → ℕ
numbers [] = 0
numbers (i ∷ is) = i.num_itfs + numbers is

-- The bodies do not depend on the descriptor.
bodies_desc :
    (is : List Interface) (p : Progress) (d : Descriptor)
    → bodies is (record p { desc = d }) ≡ bodies is p
bodies_desc [] p d = refl
bodies_desc (i ∷ is) p d = ap (λ b. own_bytes i p ++ b) (bodies_desc is (step_pass i p p.desc) d)

length-bodies :
    (is : List Interface) (p : Progress) → AllStable is → length (bodies is p) ≡ counted is
length-bodies [] p s = refl
length-bodies (i ∷ is) p s = omega (
  arith,
  length-append (own_bytes i p) (bodies is (step_pass i p p.desc)),
  s.0 p.itf_num p.ep_num p.strs,
  length-bodies is (step_pass i p p.desc) s.1,
)

count_pass-counting :
    (is : List Interface) (o : ℕ) → count_pass is (counting o) ≡ ok (counting (o + counted is))
unfolding count_pass
count_pass-counting [] o = ap (λ n. ok (counting n)) (omega arith)
count_pass-counting (i ∷ is) o =
    rw (calls-counting (i.desc_cfg 0 0 []).0 o, ◌>>=◌)
      (count_pass-counting is (o + length (dummy_bytes i))
        ∙ ap (λ n. ok (counting n)) (omega arith))

written : {b c : List ℕ} {o n : ℕ} → b ≡ c → o ≡ n → writing b o ≡ writing c n
written e f = rw (e, f) refl

-- What the second pass returns.
record Passed (is : List Interface) (p : Progress) (b : List ℕ) (o : ℕ) : Type 0 where
  next : Progress
  returns : write_pass is (record p { desc = writing b o }) ≡ ok next
  described : next.desc ≡ writing (overwrite b o (bodies is p)) (o + length (bodies is p))
  numbered : next.itf_num ≡ p.itf_num + numbers is
  tabled : next.itfs ≡ table is p.itf_num p.itfs

write_pass_lem :
    (is : List Interface) (p : Progress) (b : List ℕ) (o : ℕ)
    → 0 < length b
    → o + length (bodies is p) ≤ length b
    → Passed is p b o
unfolding write_pass
write_pass_lem [] p b o pos h = record {
  next = record p { desc = writing b o };
  returns = refl;
  described = rw overwrite-nil (ap (λ n. writing b n) (omega arith));
  numbered = omega arith;
  tabled = refl;
}
write_pass_lem (i ∷ is) p b o pos h =
    let own = own_bytes i p in
    let after = step_pass i p p.desc in
    let grown : length (own ++ bodies is after) ≡ length own + length (bodies is after) =
      length-append own (bodies is after) in
    let same : length (overwrite b o own) ≡ length b =
      length-overwrite b o own (omega (arith, grown)) in
    let m =
      write_pass_lem is after (overwrite b o own) (o + length own) (omega (arith, same))
        (omega (arith, grown, same)) in
    record {
      next = m.next;
      returns =
          rw
            (
              calls-writing (i.desc_cfg p.itf_num p.ep_num p.strs).0 b o pos (omega (arith, grown)),
              ◌>>=◌,
            )
            m.returns;
      described =
          m.described
          ∙ written (overwrite-overwrite b o own (bodies is after) (omega (arith, grown)))
              (omega (arith, grown));
      numbered = omega (arith, m.numbered);
      tabled = m.tabled;
    }

-- Both passes together, over zeros of the size that was counted.
pub record Assembled (o : Options) (d : Builtin) (is : List Interface) : Type 0 where
  pub size : ℕ
  pub next : Progress
  pub counts : count_pass is (extend (descriptor none) (initial_cfg d)) ≡ ok (counting size)
  pub writes : write_pass is (start o d size) ≡ ok next
  pub described : next.desc ≡ writing (initial_cfg d ++ bodies is (start o d 0)) size
  pub sized : length (initial_cfg d ++ bodies is (start o d 0)) ≡ size
  pub numbered : next.itf_num ≡ d.itf_max + numbers is
  pub tabled : next.itfs ≡ table is d.itf_max []

over_zeros : (n : ℕ) (xs : List ℕ) → length xs ≡ n → overwrite (replicate n 0) 0 xs ≡ xs
over_zeros n xs e =
    ap (λ r. xs ++ r)
      (drop_all (replicate n 0) (0 + length xs) (omega (arith, length-replicate n 0)))
    ∙ append-nil xs

module _ (o : Options) (d : Builtin) (is : List Interface) (cfg : 9 ≤ length (initial_cfg d))
    (s : AllStable is) where
  abbrev init : List ℕ
  init = initial_cfg d

  abbrev own : List ℕ
  own = bodies is (start o d 0)

  abbrev zeros : List ℕ
  zeros = replicate (length init + counted is) 0

  sizes : length (init ++ own) ≡ length init + counted is
  sizes = omega (arith, length-append init own, length-bodies is (start o d 0) s)

  zeros_size : length zeros ≡ length init + counted is
  zeros_size = length-replicate (length init + counted is) 0

  filled_size : length (overwrite zeros 0 init) ≡ length init + counted is
  filled_size = length-overwrite zeros 0 init (omega (arith, zeros_size)) ∙ zeros_size

  passed : Passed is (start o d 0) (overwrite zeros 0 init) (0 + length init)
  passed =
      write_pass_lem is (start o d 0) (overwrite zeros 0 init) (0 + length init)
        (omega (arith, filled_size)) (omega (arith, filled_size, length-bodies is (start o d 0) s))

  pub assembled : Assembled o d is
  assembled = record {
    size = length init + counted is;
    next = passed.next;
    counts =
        ap (count_pass is) (extend-counting 0 init)
        ∙ count_pass-counting is (0 + length init)
        ∙ ap (λ n. ok (counting n)) (omega arith);
    writes =
        ap (λ e. write_pass is (record (start o d 0) { desc = e }))
          (extend-writing zeros 0 init (omega (arith, zeros_size)))
        ∙ passed.returns;
    described =
        passed.described
        ∙ written
            (overwrite-overwrite zeros 0 init own (omega (arith, zeros_size))
              ∙ over_zeros (length init + counted is) (init ++ own) sizes)
            (omega (arith, length-bodies is (start o d 0) s));
    sized = sizes;
    numbered = passed.numbered;
    tabled = passed.tabled;
  }
