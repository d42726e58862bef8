-- ===== src/Mqtt/Calls.antt =====
-- What the calls of a client do to a host whose connection delivers bytes in order.
use micropython_lib.Prelude.{
  ℕ, ◌+◌, ◌*◌, ◌/◌, ◌%◌, ◌<◌, ◌≡◌, refl, ap, sym, ◌∙◌, arith, Bool, true, false, if◌then◌else◌,
  List, [], ◌∷◌, ◌++◌, some, Result, ok, raise, length,
}
use mathlib.Core.Path.{subst}
use micropython_lib.Prelude.Int.{pos}
use micropython_lib.Prelude.Slices.{append_assoc}
use micropython_lib.Mqtt.{
  ◌>>=◌, pure, Bytes, Host, Client, Outcome, done, raised, more_rounds, State, Action, lift, word,
  index, write, read, send_str, read_byte, read_word,
}

-- A call that returns, with a property of its result and of the state after it.
abbrev pub Returns : {H A : Type 0} → (A → State H → Type 0) → Outcome A × State H → Type 0
Returns P (done a, s) = P a s
Returns P (raised e, s) = ⊥
Returns P (more_rounds, s) = ⊥

-- What has been sent to and received from the other side, and what was handed to the callback.
pub record Traffic : Type 0 where
  pub incoming : Bytes
  pub outgoing : Bytes
  pub delivered : List (Bytes × Bytes)

-- A host with a connection to a peer whose bytes `incoming` are still to be read, those behind the opening included: a read of as many
-- bytes as have come gives them, in order; a write is sent behind what was sent before; and the
-- callback of the application does neither.
pub record IsStream {H : Type 0} (k : Host H) (view : H → Traffic) : Type 0 where
  pub reads :
      (xs ys : Bytes) (h : H)
      → (view h).incoming ≡ xs ++ ys
      → ((k.read (pos (length xs)) h).0 ≡ some xs)
        × (view (k.read (pos (length xs)) h).1 ≡ record (view h) { incoming = ys })
  pub writes :
      (xs : Bytes) (h : H)
      → view (k.write xs h) ≡ record (view h) { outgoing = (view h).outgoing ++ xs }
  pub opens : (h : H) → view (k.open_socket h) ≡ view h
  pub blocks : (b : Bool) (h : H) → view (k.set_blocking b h) ≡ view h
  pub calls :
      (topic msg : Bytes) (h : H)
      → view (k.callback (some topic) (some msg) h)
        ≡ record (view h) { delivered = (view h).delivered ++ (topic, msg) ∷ [] }

pub bind_Returns :
    {H A B : Type 0} (P : A → State H → Type 0) (Q : B → State H → Type 0) (m : Action H A)
    (f : A → Action H B) (s : State H)
    → Returns P (m s)
    → ((a : A) (t : State H) → P a t → Returns Q (f a t))
    → Returns Q ((m >>= f) s)
bind_Returns {H} {A} {B} P Q m f s h next = go (m s) h
  where
    go :
        (x : Outcome A × State H)
        → Returns P x
        → Returns {H = H} Q (elim x.0 [
          | done v ↦ f v x.1
          | raised e ↦ (raised e, x.1)
          | more_rounds ↦ (more_rounds, x.1)
        ])
    go (done v, t) g = next v t g
    go (raised e, t) g = g
    go (more_rounds, t) g = g

pub if_Returns :
    {H A : Type 0} (P : A → State H → Type 0) (b : Bool) (x y : Action H A) (s : State H)
    → (b ≡ true → Returns P (x s))
    → (b ≡ false → Returns P (y s))
    → Returns P ((if b then x else y) s)
if_Returns P true x y s h g = h refl
if_Returns P false x y s h g = g refl

pub lift-Returns :
    {H A : Type 0} (P : A → State H → Type 0) (r : Result A) (a : A) (s : State H)
    → r ≡ ok a
    → P a s
    → Returns P (lift r s)
lift-Returns P (ok b) a s e p = subst (λ x. P x s) (ok_same e) p
  where
    ok_same : ok b ≡ ok a → a ≡ b
    ok_same q = cc
lift-Returns P (raise x) a s e p = cc

-- The client and the traffic of a state.
pub record At {H : Type 0} (view : H → Traffic) (c : Client) (t : Traffic) (s : State H)
    : Type 0 where
  pub client : s.client ≡ c
  pub traffic : view s.host ≡ t

module _ {H : Type 0} (k : Host H) (view : H → Traffic) (stream : IsStream k view) where
  pub write_lem :
      (c : Client) (t : Traffic) (xs : Bytes) (s : State H)
      → At view c t s
      → Returns (λ _. At view c (record t { outgoing = t.outgoing ++ xs })) (write k xs s)
  unfolding write
  write_lem c t xs s h = record {
    client = h.client;
    traffic =
        stream.writes xs s.host
        ∙ ap (λ (u : Traffic). record u { outgoing = u.outgoing ++ xs }) h.traffic;
  }

  pub read_lem :
      (c : Client) (t : Traffic) (xs ys : Bytes) (s : State H)
      → t.incoming ≡ xs ++ ys
      → At view c t s
      → Returns
          (λ r u. (r ≡ some xs) × At view c (record t { incoming = ys }) u)
          (read k (pos (length xs)) s)
  unfolding read
  read_lem c t xs ys s e h =
      let (value, after) =
        stream.reads xs ys s.host (ap (λ (u : Traffic). u.incoming) h.traffic ∙ e) in
      (
        value,
        record {
          client = h.client;
          traffic = after ∙ ap (λ (u : Traffic). record u { incoming = ys }) h.traffic;
        },
      )

  pub send_str_lem :
      (c : Client) (t : Traffic) (xs : Bytes) (s : State H)
      → At view c t s
      → Returns
          (λ _. At view c (record t { outgoing = t.outgoing ++ (word (length xs) ++ xs) }))
          (send_str k xs s)
  unfolding send_str
  send_str_lem c t xs s h =
      bind_Returns (λ _. At view c (record t { outgoing = t.outgoing ++ word (length xs) }))
        (λ _. At view c (record t { outgoing = t.outgoing ++ (word (length xs) ++ xs) }))
        (write k (word (length xs))) (λ _. write k xs) s (write_lem c t (word (length xs)) s h)
        (λ _ u g.
          rw (sym (append_assoc t.outgoing (word (length xs)) xs))
            (write_lem c (record t { outgoing = t.outgoing ++ word (length xs) }) xs u g))

  pub read_byte_lem :
      (c : Client) (t : Traffic) (b : ℕ) (ys : Bytes) (s : State H)
      → t.incoming ≡ b ∷ ys
      → At view c t s
      → Returns (λ r u. (r ≡ b) × At view c (record t { incoming = ys }) u) (read_byte k s)
  unfolding read_byte
  read_byte_lem c t b ys s e h =
      bind_Returns (λ r u. (r ≡ some (b ∷ [])) × At view c (record t { incoming = ys }) u)
        (λ r u. (r ≡ b) × At view c (record t { incoming = ys }) u) (read k (pos 1))
        (λ r. lift (index r 0)) s (read_lem c t (b ∷ []) ys s e h)
        (λ r u g.
          lift-Returns (λ r u. (r ≡ b) × At view c (record t { incoming = ys }) u) (index r 0) b u
            (ap (λ o. index o 0) g.0) (refl, g.1))

  pub read_word_lem :
      (c : Client) (t : Traffic) (n : ℕ) (ys : Bytes) (s : State H)
      → n < 65536
      → t.incoming ≡ word n ++ ys
      → At view c t s
      → Returns (λ r u. (r ≡ n) × At view c (record t { incoming = ys }) u) (read_word k s)
  unfolding read_word
  read_word_lem c t n ys s small e h =
      bind_Returns (λ r u. (r ≡ some (word n)) × After u) Q (read k (pos 2))
        (λ r. lift (index r 0) >>= λ high. lift (index r 1) >>= λ low. pure (high * 256 + low)) s
        (read_lem c t (word n) ys s e h)
        (λ r u g.
          bind_Returns (λ v w. (v ≡ (n / 256) % 256) × After w) Q (lift (index r 0))
            (λ high. lift (index r 1) >>= λ low. pure (high * 256 + low)) u
            (lift-Returns _ (index r 0) ((n / 256) % 256) u (ap (λ o. index o 0) g.0) (refl, g.1))
            (λ high w f.
              bind_Returns (λ v x. (v ≡ n % 256) × After x) Q (lift (index r 1))
                (λ low. pure (high * 256 + low)) w
                (lift-Returns _ (index r 1) (n % 256) w (ap (λ o. index o 1) g.0) (refl, f.1))
                (λ low x d. (omega (arith, f.0, d.0), d.1))))
    where
      After : State H → Type 0
      After u = At view c (record t { incoming = ys }) u

      Q : ℕ → State H → Type 0
      Q r u = (r ≡ n) × At view c (record t { incoming = ys }) u
