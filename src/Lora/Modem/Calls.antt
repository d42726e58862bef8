-- ===== src/Lora/Modem/Calls.antt =====
-- What the calls of `BaseModem` do to its fields, and that they raise nothing.
use micropython_lib.Prelude.{
  ℕ, ◌≡◌, refl, ap, sym, ◌∙◌, Bool, true, false, not, ◌&&◌, if◌then◌else◌, Option, none, some,
  Result, ok, raise, ◌⊎◌, inl, inr,
}
use micropython_lib.Prelude.Int.{ℤ, pos, pos_part, leb_ℤ}
use micropython_lib.Lora.Modem.{
  ◌>>=◌, ◌>>◌, pure, gets, modify, asks, tells, skip, Modem, Rx, off, on, until, Radio, State,
  Action, is_false, ant_idle, deadline, base_start_recv, start_recv, end_recv, resume, check_idle,
  check_recv,
}

-- A call that returns, with a property of its result and of the fields after it.
abbrev pub Returns : {H A : Type 0} → (A → Modem → Type 0) → Result A × State H → Type 0
Returns P (ok a, s) = P a s.modem
Returns P (raise e, s) = ⊥

-- Only a receive without `continuous` has a deadline.
abbrev pub IsConsistent : Modem → Type 0
IsConsistent m = (t : ℕ) → m.rx ≡ until t → m.rx_continuous ≡ false

-- What is left of the time until `t` when the radio has been asked whether it is idle.
abbrev pub left : {H : Type 0} → Radio H → State H → ℕ → ℤ
left r s t = r.ticks_diff t (r.ticks_ms (r.is_idle s.hw).1).0

-- The answer of `_check_recv` in the state `s`, and the fields after it. Nothing changes, but that a
-- receive that the radio has left and whose deadline has come is over.
pub data Checked {H : Type 0} (r : Radio H) (s : State H) : Bool → Modem → Type 0 where
  stopped : is_false s.modem.rx ≡ true → Checked r s false s.modem
  goes_on : is_false s.modem.rx ≡ false → (r.is_idle s.hw).0 ≡ false → Checked r s true s.modem
  resumed : s.modem.rx ≡ on → (r.is_idle s.hw).0 ≡ true → Checked r s true s.modem
  in_time :
      (t : ℕ)
      → s.modem.rx ≡ until t
      → is_false (until t) ≡ false
      → (r.is_idle s.hw).0 ≡ true
      → leb_ℤ (left r s t) (pos 0) ≡ false
      → Checked r s true s.modem
  timed_out :
      (t : ℕ)
      → s.modem.rx ≡ until t
      → is_false (until t) ≡ false
      → (r.is_idle s.hw).0 ≡ true
      → leb_ℤ (left r s t) (pos 0) ≡ true
      → Checked r s false (record s.modem { rx = off })

-- A property of the first call carries over to the rest.
pub bind_Returns :
    {H A B : Type 0} (P : A → Modem → Type 0) (Q : B → Modem → Type 0) (m : Action H A)
    (f : A → Action H B) (s : State H)
    → Returns P (m s)
    → ((a : A) (t : State H) → P a t.modem → Returns Q (f a t))
    → Returns Q ((m >>= f) s)
bind_Returns {H} {A} {B} P Q m f s h k = go (m s) h
  where
    go :
        (x : Result A × State H)
        → Returns P x
        → Returns {H = H} Q (elim x.0 [ raise e ↦ (raise e, x.1) | ok v ↦ f v x.1 ])
    go (ok v, t) g = k v t g
    go (raise e, t) g = g

-- The same with a property of the whole state after the call.
abbrev pub Gives : {H A : Type 0} → (A → State H → Type 0) → Result A × State H → Type 0
Gives P (ok a, s) = P a s
Gives P (raise e, s) = ⊥

pub bind_Gives :
    {H A B : Type 0} (P : A → State H → Type 0) (Q : B → Modem → Type 0) (m : Action H A)
    (f : A → Action H B) (s : State H)
    → Gives P (m s)
    → ((a : A) (t : State H) → P a t → Returns Q (f a t))
    → Returns Q ((m >>= f) s)
bind_Gives {H} {A} {B} P Q m f s h k = go (m s) h
  where
    go :
        (x : Result A × State H)
        → Gives P x
        → Returns {H = H} Q (elim x.0 [ raise e ↦ (raise e, x.1) | ok v ↦ f v x.1 ])
    go (ok v, t) g = k v t g
    go (raise e, t) g = g

-- From the fields after the first call to the state after the second.
pub then_Gives :
    {H A B : Type 0} (P : A → Modem → Type 0) (Q : B → State H → Type 0) (m : Action H A)
    (f : A → Action H B) (s : State H)
    → Returns P (m s)
    → ((a : A) (t : State H) → P a t.modem → Gives Q (f a t))
    → Gives Q ((m >>= f) s)
then_Gives {H} {A} {B} P Q m f s h k = go (m s) h
  where
    go :
        (x : Result A × State H)
        → Returns P x
        → Gives Q (elim x.0 [ raise e ↦ (raise e, x.1) | ok v ↦ f v x.1 ])
    go (ok v, t) g = k v t g
    go (raise e, t) g = g

pub if_Gives :
    {H A : Type 0} (P : A → State H → Type 0) (b : Bool) (x y : Action H A) (s : State H)
    → (b ≡ true → Gives P (x s))
    → (b ≡ false → Gives P (y s))
    → Gives P ((if b then x else y) s)
if_Gives P true x y s h k = h refl
if_Gives P false x y s h k = k refl

pub map_Returns :
    {H A : Type 0} (P Q : A → Modem → Type 0) (x : Result A × State H)
    → Returns P x
    → ((a : A) (m : Modem) → P a m → Q a m)
    → Returns Q x
map_Returns P Q (ok a, s) h k = k a s.modem h
map_Returns P Q (raise e, s) h k = h

-- A property that both branches have.
pub if_Returns :
    {H A : Type 0} (P : A → Modem → Type 0) (b : Bool) (x y : Action H A) (s : State H)
    → (b ≡ true → Returns P (x s))
    → (b ≡ false → Returns P (y s))
    → Returns P ((if b then x else y) s)
if_Returns P true x y s h k = h refl
if_Returns P false x y s h k = k refl

pub if_true :
    {H A : Type 0} (b : Bool) (x y : Action H A) (s : State H)
    → b ≡ true
    → (if b then x else y) s ≡ x s
if_true true x y s e = refl
if_true false x y s e = cc

pub if_false :
    {H A : Type 0} (b : Bool) (x y : Action H A) (s : State H)
    → b ≡ false
    → (if b then x else y) s ≡ y s
if_false true x y s e = cc
if_false false x y s e = refl

abbrev pub Becomes : {A : Type 0} → Modem → A → Modem → Type 0
Becomes m a n = n ≡ m

module _ {H : Type 0} (r : Radio H) where
  pub ant_idle_lem : (s : State H) → Returns (Becomes s.modem) (ant_idle r s)
  unfolding ant_idle
  ant_idle_lem s =
      if_Returns (Becomes s.modem) s.modem.has_ant_sw (tells r.ant_idle) skip s (λ e. refl)
        (λ e. refl)

  pub end_recv_lem : (s : State H) → Returns (Becomes (record s.modem { rx = off })) (end_recv r s)
  unfolding end_recv
  end_recv_lem s = ant_idle_lem (record s { modem = record s.modem { rx = off } })

  -- What `start_recv` writes.
  abbrev Started : Modem → Bool → ℕ → Unit {0} → Modem → Type 0
  Started m continuous len _ n =
      (x : Rx) × (n ≡ record m { rx = x; rx_continuous = continuous; rx_length = len })

  -- The end of `BaseModem.start_recv`.
  antenna_lem :
      (s : State H) (x : Rx) (continuous : Bool) (len : ℕ)
      → let n = record s.modem { rx = x; rx_continuous = continuous; rx_length = len } in
        Returns (Started s.modem continuous len) (
          (if s.modem.has_ant_sw && not s.modem.tx then tells r.ant_rx else skip)
            (record s { modem = n }))
  antenna_lem s x continuous len =
      if_Returns (Started s.modem continuous len) (s.modem.has_ant_sw && not s.modem.tx)
        (tells r.ant_rx) skip
        (record s {
          modem = record s.modem { rx = x; rx_continuous = continuous; rx_length = len };
        })
        (λ e. (x, refl)) (λ e. (x, refl))

  base_lem :
      (s : State H) (timeout : Option ℕ) (continuous : Bool) (len : ℕ)
      → (timeout ≡ none) ⊎ (continuous ≡ false)
      → Returns (Started s.modem continuous len) (base_start_recv r timeout continuous len s)
  unfolding base_start_recv deadline
  base_lem s none true len h = antenna_lem s on true len
  base_lem s none false len h = antenna_lem s on false len
  base_lem s (some t) true len (inl e) = cc
  base_lem s (some t) true len (inr e) = cc
  base_lem s (some t) false len h =
      let (now, hw) = r.ticks_ms s.hw in
      antenna_lem (record s { hw = hw }) (until (r.ticks_add now t)) false len

  start_lem :
      (s : State H) (timeout : Option ℕ) (continuous : Bool) (len : ℕ)
      → (timeout ≡ none) ⊎ (continuous ≡ false)
      → Returns (Started s.modem continuous len) (start_recv r timeout continuous len s)
  unfolding start_recv
  start_lem s timeout continuous len h =
      bind_Returns (Started s.modem continuous len) (Started s.modem continuous len)
        (base_start_recv r timeout continuous len)
        (λ _. gets (λ m. m.tx) >>= λ busy.
          if busy then skip else tells (r.begin_recv timeout continuous len))
        s (base_lem s timeout continuous len h)
        (λ _ t p.
          if_Returns (Started s.modem continuous len) t.modem.tx skip
            (tells (r.begin_recv timeout continuous len)) t (λ e. p) (λ e. p))

  put_back :
      (m n : Modem) (x : Rx)
      → Started m m.rx_continuous m.rx_length tt n
      → m.rx ≡ x
      → record n { rx = x } ≡ m
  put_back m n x (y, p) e =
      ap (λ (k : Modem). record k { rx = x }) p ∙ ap (λ z. record m { rx = z }) (sym e)

  resume_lem :
      (s : State H) (x : Rx) (timeout : Option ℕ)
      → s.modem.rx ≡ x
      → (timeout ≡ none) ⊎ (s.modem.rx_continuous ≡ false)
      → Returns (λ a m. (a ≡ true) × (m ≡ s.modem)) (resume r x timeout s)
  unfolding resume
  resume_lem s x timeout e h =
      bind_Returns (Started s.modem s.modem.rx_continuous s.modem.rx_length)
        (λ a m. (a ≡ true) × (m ≡ s.modem))
        (start_recv r timeout s.modem.rx_continuous s.modem.rx_length)
        (λ _. modify (λ n. record n { rx = x }) >> pure true) s
        (start_lem s timeout s.modem.rx_continuous s.modem.rx_length h)
        (λ _ t p. (refl, put_back s.modem t.modem x p e))

  as_before :
      (P : Bool → Modem → Type 0) (m : Modem) (x : Result Bool × State H)
      → P true m
      → Returns (λ a n. (a ≡ true) × (n ≡ m)) x
      → Returns P x
  as_before P m (ok a, t) f (p, q) = rw (p, q) f
  as_before P m (raise e, t) f p = p

  over :
      (P : Bool → Modem → Type 0) (s : State H)
      → P false (record s.modem { rx = off })
      → Returns P ((end_recv r >> (tells r.schedule >> pure false)) s)
  over P s e =
      bind_Returns (Becomes (record s.modem { rx = off })) P (end_recv r)
        (λ _. tells r.schedule >> pure false) s (end_recv_lem s) (λ _ u p. rw p e)

  check_idle_lem :
      (s : State H) (x : Rx)
      → s.modem.rx ≡ x
      → is_false x ≡ false
      → (r.is_idle s.hw).0 ≡ true
      → IsConsistent s.modem
      → Returns (Checked r s) (check_idle r x (record s { hw = (r.is_idle s.hw).1 }))
  unfolding check_idle
  check_idle_lem s off e f i c = cc
  check_idle_lem s on e f i c =
      as_before (Checked r s) s.modem (resume r on none (record s { hw = (r.is_idle s.hw).1 }))
        (resumed e i) (resume_lem (record s { hw = (r.is_idle s.hw).1 }) on none e (inl refl))
  check_idle_lem s (until t) e f i c =
      let (now, hw) = r.ticks_ms (r.is_idle s.hw).1 in
      let rest = r.ticks_diff t now in
      if_Returns (Checked r s) (leb_ℤ rest (pos 0)) (end_recv r >> (tells r.schedule >> pure false))
        (resume r (until t) (some (pos_part rest))) (record s { hw = hw })
        (λ q. over (Checked r s) (record s { hw = hw }) (timed_out t e f i q))
        (λ q.
          as_before (Checked r s) s.modem
            (resume r (until t) (some (pos_part rest)) (record s { hw = hw })) (in_time t e f i q)
            (resume_lem (record s { hw = hw }) (until t) (some (pos_part rest)) e (inr (c t e))))

  pub check_recv_lem : (s : State H) → IsConsistent s.modem → Returns (Checked r s) (check_recv r s)
  unfolding check_recv
  check_recv_lem s c =
      let (idle, hw) = r.is_idle s.hw in
      if_Returns (Checked r s) (is_false s.modem.rx) (pure false)
        (asks r.is_idle >>= λ i. if i then check_idle r s.modem.rx else pure true) s
        (λ e. stopped e)
        (λ e.
          if_Returns (Checked r s) idle (check_idle r s.modem.rx) (pure true) (record s { hw = hw })
            (λ i. check_idle_lem s s.modem.rx refl e i c) (λ i. goes_on e i))

  pub Checked-IsConsistent :
      (s : State H) (n : Modem) (a : Bool) → Checked r s a n → IsConsistent s.modem → IsConsistent n
  Checked-IsConsistent s _ _ (stopped e) c = c
  Checked-IsConsistent s _ _ (goes_on e i) c = c
  Checked-IsConsistent s _ _ (resumed e i) c = c
  Checked-IsConsistent s _ _ (in_time t e f i q) c = c
  Checked-IsConsistent s _ _ (timed_out t e f i q) c = λ u q. cc

  -- What a check leaves alone.
  pub tx-Checked : (s : State H) (n : Modem) (a : Bool) → Checked r s a n → n.tx ≡ s.modem.tx
  tx-Checked s _ _ (stopped e) = refl
  tx-Checked s _ _ (goes_on e i) = refl
  tx-Checked s _ _ (resumed e i) = refl
  tx-Checked s _ _ (in_time t e f i q) = refl
  tx-Checked s _ _ (timed_out t e f i q) = refl
