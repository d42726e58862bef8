-- ===== src/Mqtt/Overflow.antt =====
-- `publish` with an identifier that a packet has no room for.
use micropython_lib.Prelude.{
  ℕ, zero, suc, ◌+◌, ◌*◌, ◌%◌, ◌<◌, ◌≤◌, ◌≡◌, ◌≢◌, refl, arith, Bool, true, false, ltb, ◌==◌,
  if◌then◌else◌, [], ◌∷◌, Option, none, some, Result, ok, raise, length, take, bit_or, ==_iff,
}
use micropython_lib.Prelude.Int.{ℤ, pos}
use micropython_lib.Mqtt.{
  ◌>>=◌, ◌>>◌, pure, assert, lift, Bytes, Host, State, Action, Outcome, done, raised, more_rounds,
  store_length, bit, index, write, read, send_str, read_word, wait_msg,
}
use micropython_lib.Mqtt.Sends.{
  is_op, is_bytes, send_header, send_pid, next_pid, settle, await_ack, publish,
}

-- A property of the result and the state where a call returns.
abbrev WhenDone : {H A : Type 0} → (A → State H → Type 0) → Outcome A × State H → Type 0
WhenDone P (done a, s) = P a s
WhenDone P (raised e, s) = Unit {0}
WhenDone P (more_rounds, s) = Unit {0}

-- The values that a read returns are bytes.
abbrev AllBytes : Bytes → Type 0
AllBytes [] = Unit {0}
AllBytes (b ∷ bs) = (b < 256) × AllBytes bs

abbrev AreBytes : Option Bytes → Type 0
AreBytes none = Unit {0}
AreBytes (some b) = AllBytes b

abbrev pub ReadsBytes : {H : Type 0} → Host H → Type 0
ReadsBytes {H} k = (n : ℤ) (h : H) → AreBytes (k.read n h).0

bind_WhenDone :
    {H A B : Type 0} (P : A → State H → Type 0) (Q : B → State H → Type 0) (m : Action H A)
    (f : A → Action H B) (s : State H)
    → WhenDone P (m s)
    → ((a : A) (t : State H) → P a t → WhenDone Q (f a t))
    → WhenDone Q ((m >>= f) s)
bind_WhenDone {H} {A} {B} P Q m f s h next = go (m s) h
  where
    go :
        (x : Outcome A × State H)
        → WhenDone P x
        → WhenDone {H = H} Q (elim x.0 [
          | done v ↦ f v x.1
          | raised e ↦ (raised e, x.1)
          | more_rounds ↦ (more_rounds, x.1)
        ])
    go (done v, t) g = next v t g
    go (raised e, t) g = tt
    go (more_rounds, t) g = tt

any_result : {H A : Type 0} (x : Outcome A × State H) → WhenDone (λ _ _. Unit {0}) x
any_result (done a, s) = tt
any_result (raised e, s) = tt
any_result (more_rounds, s) = tt

if_WhenDone :
    {H A : Type 0} (P : A → State H → Type 0) (b : Bool) (x y : Action H A) (s : State H)
    → (b ≡ true → WhenDone P (x s))
    → (b ≡ false → WhenDone P (y s))
    → WhenDone P ((if b then x else y) s)
if_WhenDone P true x y s h g = h refl
if_WhenDone P false x y s h g = g refl

lift-WhenDone :
    {H A : Type 0} (P : A → State H → Type 0) (r : Result A) (s : State H)
    → ((a : A) → r ≡ ok a → P a s)
    → WhenDone P (lift r s)
lift-WhenDone P (ok a) s h = h a refl
lift-WhenDone P (raise e) s h = tt

get_byte : (o : Option Bytes) (i x : ℕ) → AreBytes o → index o i ≡ ok x → x < 256
get_byte none i x h e = cc
get_byte (some []) i x h e = cc
get_byte (some (b ∷ bs)) zero x h e = omega (arith, h.0, same e)
  where
    same : ok b ≡ ok x → b ≡ x
    same q = cc
get_byte (some (b ∷ bs)) (suc i) x h e = get_byte (some bs) i x h.1 e

module _ {H : Type 0} (k : Host H) (bytes : ReadsBytes k) where
  read_word_bound : (s : State H) → WhenDone (λ n _. n < 65536) (read_word k s)
  unfolding read_word read
  read_word_bound s =
      let (b, h) = k.read (pos 2) s.host in
      bind_WhenDone (λ v _. v < 256) (λ n _. n < 65536) (lift (index b 0))
        (λ high. lift (index b 1) >>= λ low. pure (high * 256 + low)) (record s { host = h })
        (lift-WhenDone (λ v _. v < 256) (index b 0) _
          (λ v e. get_byte b 0 v (bytes (pos 2) s.host) e))
        (λ high t p.
          bind_WhenDone (λ v _. v < 256) (λ n _. n < 65536) (lift (index b 1))
            (λ low. pure (high * 256 + low)) t
            (lift-WhenDone (λ v _. v < 256) (index b 1) t
              (λ v e. get_byte b 1 v (bytes (pos 2) s.host) e))
            (λ low u q. omega arith))

  -- No acknowledgement matches an identifier from 65536 on.
  await_ack_never :
      (rounds pid : ℕ) (s : State H) → 65536 ≤ pid → WhenDone (λ _ _. ⊥) (await_ack k rounds pid s)
  unfolding await_ack
  await_ack_never zero pid s h = tt
  await_ack_never (suc rounds) pid s h =
      bind_WhenDone (λ _ _. Unit {0}) (λ _ _. ⊥) (wait_msg k (suc rounds))
        (λ op. if is_op op 64 then acked_by else await_ack k rounds pid) s
        (any_result (wait_msg k (suc rounds) s))
        (λ op t _.
          if_WhenDone (λ _ _. ⊥) (is_op op 64) acked_by (await_ack k rounds pid) t
            (λ _.
              bind_WhenDone (λ _ _. Unit {0}) (λ _ _. ⊥) (read k (pos 1))
                (λ size. assert (is_bytes size 2) >> (read_word k >>= compared)) t
                (any_result (read k (pos 1) t))
                (λ size u _.
                  bind_WhenDone (λ _ _. Unit {0}) (λ _ _. ⊥) (assert (is_bytes size 2))
                    (λ _. read_word k >>= compared) u (any_result (assert (is_bytes size 2) u))
                    (λ _ v _.
                      bind_WhenDone (λ n _. n < 65536) (λ _ _. ⊥) (read_word k) compared v
                        (read_word_bound v)
                        (λ n w small.
                          if_WhenDone (λ _ _. ⊥) (pid == n) (pure tt) (await_ack k rounds pid) w
                            (λ e. differs n small ((==_iff pid n).0 e))
                            (λ _. await_ack_never rounds pid w h)))))
            (λ _. await_ack_never rounds pid t h))
    where
      compared : ℕ → Action H (Unit {0})
      compared received = if pid == received then pure tt else await_ack k rounds pid

      acked_by : Action H (Unit {0})
      acked_by = read k (pos 1) >>= λ size. assert (is_bytes size 2) >> (read_word k >>= compared)

      differs : (n : ℕ) → n < 65536 → pid ≡ n → ⊥
      differs n small e = omega arith

  abbrev Spent : State H → Type 0
  Spent s = 65535 ≤ s.client.pid

  assert-Spent : (b : Bool) (s : State H) → Spent s → WhenDone (λ _. Spent) (assert b s)
  assert-Spent true s h = h
  assert-Spent false s h = tt

  write_Spent : (xs : Bytes) (s : State H) → Spent s → WhenDone (λ _. Spent) (write k xs s)
  unfolding write
  write_Spent xs s h = h

  send_str-Spent : (xs : Bytes) (s : State H) → Spent s → WhenDone (λ _. Spent) (send_str k xs s)
  unfolding send_str write
  send_str-Spent xs s h = h

  header_Spent :
      (first sz : ℕ) (s : State H) → Spent s → WhenDone (λ _. Spent) (send_header k first sz s)
  unfolding send_header write
  header_Spent first sz s h =
      bind_WhenDone (λ (r : Bytes × ℕ). Spent) (λ _. Spent)
        (lift (store_length 3 (first ∷ 0 ∷ 0 ∷ 0 ∷ []) 1 sz)) (λ r. write k (take (r.1 + 1) r.0)) s
        (lift-WhenDone (λ (r : Bytes × ℕ). Spent) (store_length 3 (first ∷ 0 ∷ 0 ∷ 0 ∷ []) 1 sz) s
          (λ _ _. h))
        (λ r t p. p)

  send_pid_bound : (s : State H) → Spent s → WhenDone (λ pid _. 65536 ≤ pid) (send_pid k 1 s)
  unfolding send_pid next_pid write
  send_pid_bound s h = omega arith

  settle_never :
      (rounds pid : ℕ) (s : State H) → 65536 ≤ pid → WhenDone (λ _ _. ⊥) (settle k rounds 1 pid s)
  unfolding settle
  settle_never rounds pid s h = await_ack_never rounds pid s h

  never_returned : (x : Outcome (Unit {0}) × State H) → WhenDone (λ _ _. ⊥) x → x.0 ≡ done tt → ⊥
  never_returned (done a, s) h e = h
  never_returned (raised x, s) h e = cc
  never_returned (more_rounds, s) h e = cc

  publish_never :
      (rounds : ℕ) (topic msg : Bytes) (retain : Bool) (s : State H)
      → Spent s
      → WhenDone (λ _ _. ⊥) (publish k rounds topic msg retain 1 s)
  unfolding publish
  publish_never rounds topic msg retain s h =
      bind_WhenDone (λ _. Spent) (λ _ _. ⊥) (assert (ltb sz 2097152))
        (λ _. send_header k first sz >> (send_str k topic >> finish)) s
        (assert-Spent (ltb sz 2097152) s h)
        (λ _ t p.
          bind_WhenDone (λ _. Spent) (λ _ _. ⊥) (send_header k first sz)
            (λ _. send_str k topic >> finish) t (header_Spent first sz t p)
            (λ _ u q.
              bind_WhenDone (λ _. Spent) (λ _ _. ⊥) (send_str k topic) (λ _. finish) u
                (send_str-Spent topic u q)
                (λ _ v r.
                  bind_WhenDone (λ pid _. 65536 ≤ pid) (λ _ _. ⊥) (send_pid k 1)
                    (λ pid. write k msg >> settle k rounds 1 pid) v (send_pid_bound v r)
                    (λ pid w big.
                      bind_WhenDone (λ _ _. Unit {0}) (λ _ _. ⊥) (write k msg)
                        (λ _. settle k rounds 1 pid) w (any_result (write k msg w))
                        (λ _ x _. settle_never rounds pid x big)))))
    where
      first : ℕ
      first = bit_or 48 (bit_or (1 * 2) (bit retain)) % 256

      sz : ℕ
      sz = 2 + length topic + length msg + 2

      finish : Action H (Unit {0})
      finish = send_pid k 1 >>= λ pid. write k msg >> settle k rounds 1 pid

  -- At quality of service 1, with 65535 identifiers used, `publish` returns for no input of bytes and
  -- in no number of rounds: an acknowledgement has two bytes for the identifier.
  pub publish_never_returns :
      (rounds : ℕ) (topic msg : Bytes) (retain : Bool) (s : State H)
      → 65535 ≤ s.client.pid
      → (publish k rounds topic msg retain 1 s).0 ≢ done tt
  publish_never_returns rounds topic msg retain s h =
      never_returned (publish k rounds topic msg retain 1 s)
        (publish_never rounds topic msg retain s h)
