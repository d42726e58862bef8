-- ===== src/Mqtt/Lengths.antt =====
-- The remaining length of a packet: what `connect` and `publish` write, and `_recv_len` reads.
use micropython_lib.Prelude.{
  ℕ, suc, ◌+◌, ◌*◌, ◌/◌, ◌%◌, ◌^◌, ◌≤◌, ◌<◌, ◌≡◌, refl, arith, true, ltb, ◌==◌, if◌then◌else◌, inl,
  inr, Bool-cases, [], ◌∷◌, ◌++◌, ok, take, bit_and, upto, upto_sound, ==_iff,
}
use micropython_lib.Mqtt.{pure, Bytes, Host, Client, State, store_length, read_byte, recv_len}
use micropython_lib.Mqtt.Calls.{
  Traffic, IsStream, At, Returns, bind_Returns, if_Returns, read_byte_lem,
}

-- Groups of seven bits, the lowest first, with the top bit set but in the last.
abbrev pub encoded : ℕ → Bytes
encoded sz =
    if ltb sz 128
    then sz ∷ []
    else if ltb sz 16384
    then (sz % 128 + 128) ∷ sz / 128 ∷ []
    else (sz % 128 + 128) ∷ (sz / 128 % 128 + 128) ∷ sz / 16384 ∷ []

-- In a packet with at least three bytes of room the loop stores the length behind the first byte.
pub store_length_3 :
    (first sz : ℕ)
    → sz < 2097152
    → (pkt : Bytes) × (i : ℕ) × (store_length 3 (first ∷ 0 ∷ 0 ∷ 0 ∷ []) 1 sz ≡ ok (pkt, i))
      × (take (i + 1) pkt ≡ first ∷ encoded sz)
unfolding store_length
store_length_3 first sz h = elim (Bool-cases (ltb 127 sz)) [
  | inr a ↦ (first ∷ sz ∷ 0 ∷ 0 ∷ [], 1, rw a refl, ground arith)
  | inl a ↦ elim (Bool-cases (ltb 127 (sz / 128))) [
    | inr b ↦ (first ∷ (sz % 128 + 128) ∷ sz / 128 ∷ 0 ∷ [], 2, rw (a, b) refl, ground arith)
    | inl b ↦ (
      first ∷ (sz % 128 + 128) ∷ (sz / 128 % 128 + 128) ∷ sz / 128 / 128 ∷ [],
      3,
      ground arith,
      ground arith,
    )
  ]
]

low_table : upto (λ b. bit_and b 127 == b % 128) 256 ≡ true
unfolding upto
low_table = refl

low_bits : (b : ℕ) → b < 256 → bit_and b 127 ≡ b % 128
low_bits b h = (==_iff _ (b % 128)).0 (upto_sound (λ x. bit_and x 127 == x % 128) 256 b low_table h)

top_table : upto (λ b. bit_and b 128 == b / 128 * 128) 256 ≡ true
unfolding upto
top_table = refl

top_bit : (b : ℕ) → b < 256 → bit_and b 128 ≡ b / 128 * 128
top_bit b h =
    (==_iff _ (b / 128 * 128)).0
      (upto_sound (λ x. bit_and x 128 == x / 128 * 128) 256 b top_table h)

module _ {H : Type 0} (k : Host H) (view : H → Traffic) (stream : IsStream k view) where
  -- One round of `_recv_len`.
  recv_step :
      (c : Client) (t : Traffic) (b : ℕ) (ys : Bytes) (rounds n sh : ℕ) (s : State H)
      (Q : ℕ → State H → Type 0)
      → t.incoming ≡ b ∷ ys
      → At view c t s
      → b < 256
      → ((u : State H)
          → b < 128
          → At view c (record t { incoming = ys }) u
          → Q (n + b % 128 * 2 ^ sh) u)
      → ((u : State H)
          → 128 ≤ b
          → At view c (record t { incoming = ys }) u
          → Returns Q (recv_len k rounds (n + b % 128 * 2 ^ sh) (sh + 7) u))
      → Returns Q (recv_len k (suc rounds) n sh s)
  unfolding recv_len
  recv_step c t b ys rounds n sh s Q e h byte last more =
      bind_Returns (λ r u. (r ≡ b) × At view c (record t { incoming = ys }) u) Q (read_byte k)
        (λ r.
          let n' = n + bit_and r 127 * 2 ^ sh in
          let rest = recv_len k rounds n' (sh + 7) in if bit_and r 128 == 0 then pure n' else rest)
        s (read_byte_lem k view stream c t b ys s e h)
        (λ r u g.
          rw (g.0, low_bits b byte)
            (if_Returns Q (bit_and b 128 == 0) (pure (n + b % 128 * 2 ^ sh))
              (recv_len k rounds (n + b % 128 * 2 ^ sh) (sh + 7)) u
              (λ z. last u (ground (arith, top_bit b byte, z)) g.1)
              (λ z. more u (ground (arith, top_bit b byte, z)) g.1)))

  abbrev pub Read : Client → Traffic → ℕ → Bytes → ℕ → State H → Type 0
  Read c t sz ys r u = (r ≡ sz) × At view c (record t { incoming = ys }) u

  one_byte :
      (c : Client) (t : Traffic) (sz : ℕ) (ys : Bytes) (rounds : ℕ) (s : State H)
      → sz < 128
      → t.incoming ≡ sz ∷ ys
      → At view c t s
      → Returns (Read c t sz ys) (recv_len k (suc rounds) 0 0 s)
  one_byte c t sz ys rounds s h e g =
      recv_step c t sz ys rounds 0 0 s (Read c t sz ys) e g (omega arith)
        (λ u small a. (omega arith, a)) (λ u big a. absurd (omega arith))

  two_bytes :
      (c : Client) (t : Traffic) (sz : ℕ) (ys : Bytes) (rounds : ℕ) (s : State H)
      → 128 ≤ sz
      → sz < 16384
      → t.incoming ≡ (sz % 128 + 128) ∷ sz / 128 ∷ ys
      → At view c t s
      → Returns (Read c t sz ys) (recv_len k (suc (suc rounds)) 0 0 s)
  two_bytes c t sz ys rounds s low h e g =
      recv_step c t (sz % 128 + 128) (sz / 128 ∷ ys) (suc rounds) 0 0 s (Read c t sz ys) e g
        (omega arith) (λ u small a. absurd (omega arith))
        (λ u big a.
          recv_step c (record t { incoming = sz / 128 ∷ ys }) (sz / 128) ys rounds _ 7 u
            (Read c t sz ys) refl a (omega arith) (λ v small b. (omega arith, b))
            (λ v more b. absurd (omega arith)))

  three_bytes :
      (c : Client) (t : Traffic) (sz : ℕ) (ys : Bytes) (rounds : ℕ) (s : State H)
      → 16384 ≤ sz
      → sz < 2097152
      → t.incoming ≡ (sz % 128 + 128) ∷ (sz / 128 % 128 + 128) ∷ sz / 16384 ∷ ys
      → At view c t s
      → Returns (Read c t sz ys) (recv_len k (suc (suc (suc rounds))) 0 0 s)
  three_bytes c t sz ys rounds s low h e g =
      recv_step c t (sz % 128 + 128) ((sz / 128 % 128 + 128) ∷ sz / 16384 ∷ ys) (suc (suc rounds)) 0
        0 s (Read c t sz ys) e g (omega arith) (λ u small a. absurd (omega arith))
        (λ u big a.
          recv_step c (record t { incoming = (sz / 128 % 128 + 128) ∷ sz / 16384 ∷ ys })
            (sz / 128 % 128 + 128) (sz / 16384 ∷ ys) (suc rounds) _ 7 u (Read c t sz ys) refl a
            (omega arith) (λ v small b. absurd (omega arith))
            (λ v more b.
              recv_step c (record t { incoming = sz / 16384 ∷ ys }) (sz / 16384) ys rounds _ 14 v
                (Read c t sz ys) refl b (omega arith) (λ w small d. (omega arith, d))
                (λ w bad d. absurd (omega arith))))

  -- `_recv_len` reads what the loop stored, in as many rounds as there are bytes.
  pub recv_len-encoded :
      (c : Client) (t : Traffic) (sz : ℕ) (ys : Bytes) (rounds : ℕ) (s : State H)
      → sz < 2097152
      → t.incoming ≡ encoded sz ++ ys
      → At view c t s
      → Returns (Read c t sz ys) (recv_len k (suc (suc (suc rounds))) 0 0 s)
  recv_len-encoded c t sz ys rounds s h e g = elim (Bool-cases (ltb sz 128)) [
    | inl a ↦ one_byte c t sz ys (suc (suc rounds)) s (ground (arith, a)) (rw a at e) g
    | inr a ↦ elim (Bool-cases (ltb sz 16384)) [
      | inl b ↦
          two_bytes c t sz ys (suc rounds) s (ground (arith, a)) (ground (arith, b))
            (rw (a, b) at e) g
      | inr b ↦ three_bytes c t sz ys rounds s (ground (arith, b)) h (rw (a, b) at e) g
    ]
  ]
