-- ===== src/Usb/Config/Tables.antt =====
-- The table of interfaces by number that `config` builds.
use micropython_lib.Prelude.{
  ℕ, zero, suc, ◌+◌, ◌≤◌, ◌≡◌, refl, arith, Bool, ◌&&◌, leb, ltb, if◌then◌else◌, List, [], ◌∷◌,
  Option, none, some,
}
use micropython_lib.Prelude.Dict.{Dict, lookup, insert, lookup-insert}
use micropython_lib.Usb.Config.{Interface, assign}

abbrev pub between : ℕ → ℕ → ℕ → Bool
between low k high = leb low k && ltb k high

-- The interface whose numbers include `k`, when numbers are dealt out from `num` on.
abbrev pub owner : List Interface → ℕ → ℕ → Option ℕ
owner [] num k = none
owner (i ∷ is) num k =
    let rest = owner is (num + i.num_itfs) k in
    if between num k (num + i.num_itfs) then some i.id else rest

-- The table behind a pass over the interfaces.
abbrev pub table : List Interface → ℕ → Dict ℕ → Dict ℕ
table [] num d = d
table (i ∷ is) num d = table is (num + i.num_itfs) (assign i.num_itfs num i.id d)

lookup-assign :
    (count num id k : ℕ) (d : Dict ℕ)
    → lookup k (assign count num id d)
      ≡ (if between num k (num + count) then some id else lookup k d)
unfolding assign
lookup-assign zero num id k d = ground arith
lookup-assign (suc count) num id k d =
    ground (arith, lookup-assign count (suc num) id k (insert num id d), lookup-insert k num id d)

lookup-table :
    (is : List Interface) (num k : ℕ) (d : Dict ℕ)
    → ((j : ℕ) → num ≤ j → lookup j d ≡ none)
    → lookup k (table is num d) ≡ (if ltb k num then lookup k d else owner is num k)
lookup-table [] num k d h = ground (arith, h k)
lookup-table (i ∷ is) num k d h = ground (
  arith,
  lookup-table is (num + i.num_itfs) k (assign i.num_itfs num i.id d) later,
  lookup-assign i.num_itfs num i.id k d,
)
  where
    later : (j : ℕ) → num + i.num_itfs ≤ j → lookup j (assign i.num_itfs num i.id d) ≡ none
    later j g = ground (arith, lookup-assign i.num_itfs num i.id j d, h j)

-- In the table that starts empty, a number is found exactly with its owner.
pub lookup-table-owner :
    (is : List Interface) (num k : ℕ) → num ≤ k → lookup k (table is num []) ≡ owner is num k
unfolding lookup
lookup-table-owner is num k h = ground (arith, lookup-table is num k [] (λ j g. refl))
