-- ===== src/Mqtt/Connecting.antt =====
-- The packet that `connect` sends, and its answer.
use micropython_lib.Prelude.{
  ℕ, ◌+◌, ◌*◌, ◌/◌, ◌%◌, ◌<◌, ◌≡◌, refl, ap, sym, ◌∙◌, arith, Bool, true, false, ◌&&◌, ltb, ◌==◌,
  if◌then◌else◌, inl, inr, Bool-cases, [], ◌∷◌, ◌++◌, some, ok, package_error, length, take,
  length-append, bit_and, bit_or, upto, upto_sound, ==_iff,
}
use mathlib.Core.Path.{subst}
use micropython_lib.Prelude.Int.{pos}
use micropython_lib.Prelude.Slices.{append_assoc, append-nil}
use micropython_lib.Mqtt.{
  ◌>>=◌, ◌>>◌, pure, fail, assert, lift, Bytes, Host, Client, State, Action, word, index, given,
  is_given, store_length, user_size, will_size, bit, connect_flags, connect_msg, write, read,
  send_str,
}
use micropython_lib.Mqtt.Sends.{send_will, send_user, read_connack, connect}
use micropython_lib.Mqtt.Calls.{
  Traffic, IsStream, At, Returns, bind_Returns, lift-Returns, write_lem, read_lem, send_str_lem,
}
use micropython_lib.Mqtt.Lengths.{encoded}
use micropython_lib.Mqtt.Delivery.{Wrote, assert_lem}

-- A length of two bytes, and the bytes.
abbrev pub str_bytes : Bytes → Bytes
str_bytes s = word (length s) ++ s

abbrev pub will_bytes : Client → Bytes
will_bytes c =
    if is_given c.lw_topic then str_bytes (given c.lw_topic) ++ str_bytes c.lw_msg else []

abbrev pub user_bytes : Client → Bytes
user_bytes c = if is_given c.user then str_bytes (given c.user) ++ str_bytes (given c.pswd) else []

-- The bits of the flags: a clean session, a last will with its quality and whether it is retained,
-- and a user with a password.
abbrev flag_bits : Bool → Bool → ℕ → Bool → Bool → ℕ
flag_bits clean will qos retain user =
    (if clean then 2 else 0)
    + (if will then 4 + 8 * qos + (if retain then 32 else 0) else 0)
    + (if user then 128 + 64 else 0)

-- Behind its first byte: the name MQTT with its length, level 4, the flags, and the keep-alive time
-- with its high byte first.
abbrev pub fixed_bytes : Client → Bool → Bytes
fixed_bytes c clean =
    4
    ∷ 77
    ∷ 81
    ∷ 84
    ∷ 84
    ∷ 4
    ∷ flag_bits clean (is_given c.lw_topic) c.lw_qos c.lw_retain (is_given c.user)
    ∷ word c.keepalive

all_bools : (Bool → Bool) → Bool
all_bools p = p true && p false

all_bools_sound : (p : Bool → Bool) (b : Bool) → all_bools p ≡ true → p b ≡ true
unfolding all_bools
all_bools_sound p true h = ground arith
all_bools_sound p false h = ground arith

-- `connect_flags` of these settings.
abbrev code_flags : Bool → Bool → ℕ → Bool → Bool → ℕ
code_flags clean will qos retain user = bit_or (bit_or (bit clean * 2) (if user then 192 else 0)) (
    if will
    then bit_or (bit_or 4 (bit_or (bit_and qos 1 * 8) (bit_and qos 2 * 8))) (bit retain * 32)
    else 0)

flags_agree : Bool
flags_agree = all_bools (λ clean. all_bools (λ will. all_bools (λ retain. all_bools (λ user.
    upto (λ qos. code_flags clean will qos retain user == flag_bits clean will qos retain user)
      3))))

flags_table : flags_agree ≡ true
unfolding flags_agree all_bools upto
flags_table = refl

code_flags-bits :
    (clean will retain user : Bool) (qos : ℕ)
    → qos < 3
    → code_flags clean will qos retain user ≡ flag_bits clean will qos retain user
unfolding flags_agree
code_flags-bits clean will retain user qos h = (==_iff _ _).0 (
    upto_sound
      (λ qos. code_flags clean will qos retain user == flag_bits clean will qos retain user) 3 qos
      (all_bools_sound _ user
        (all_bools_sound _ retain (all_bools_sound _ will (all_bools_sound _ clean flags_table))))
      h)

connect_msg-fixed :
    (c : Client) (clean : Bool)
    → c.lw_qos < 3
    → c.keepalive < 65536
    → connect_msg c clean ≡ fixed_bytes c clean
unfolding connect_flags
connect_msg-fixed c clean h k =
    rw
      (
        code_flags-bits clean (is_given c.lw_topic) c.lw_retain (is_given c.user) c.lw_qos h,
        high c.keepalive k,
      )
      refl
  where
    high : (n : ℕ) → n < 65536 → n / 256 % 256 ≡ n / 256
    high n g = omega arith

-- What follows the header of the packet: the protocol, the flags and the keep-alive time, then the
-- identifier of the client, the will, and the user with the password.
abbrev pub connect_body : Client → Bool → Bytes
connect_body c clean =
    0 ∷ (fixed_bytes c clean ++ (str_bytes c.client_id ++ (will_bytes c ++ user_bytes c)))

-- As the code sends it.
abbrev sent_body : Client → Bool → Bytes
sent_body c clean =
    0 ∷ (connect_msg c clean ++ (str_bytes c.client_id ++ (will_bytes c ++ user_bytes c)))

sent_body-eq :
    (c : Client) (clean : Bool)
    → c.lw_qos < 3
    → c.keepalive < 65536
    → sent_body c clean ≡ connect_body c clean
sent_body-eq c clean h k =
    ap (λ m. 0 ∷ (m ++ (str_bytes c.client_id ++ (will_bytes c ++ user_bytes c))))
      (connect_msg-fixed c clean h k)

-- In the six bytes that `connect` has the length is stored with a zero behind it.
store_length_5 :
    (sz : ℕ)
    → sz < 2097152
    → (pkt : Bytes) × (i : ℕ) × (store_length 5 (16 ∷ 0 ∷ 0 ∷ 0 ∷ 0 ∷ 0 ∷ []) 1 sz ≡ ok (pkt, i))
      × (take (i + 2) pkt ≡ 16 ∷ (encoded sz ++ 0 ∷ []))
unfolding store_length
store_length_5 sz h = elim (Bool-cases (ltb 127 sz)) [
  | inr a ↦ (16 ∷ sz ∷ 0 ∷ 0 ∷ 0 ∷ 0 ∷ [], 1, rw a refl, ground arith)
  | inl a ↦ elim (Bool-cases (ltb 127 (sz / 128))) [
    | inr b ↦ (16 ∷ (sz % 128 + 128) ∷ sz / 128 ∷ 0 ∷ 0 ∷ 0 ∷ [], 2, rw (a, b) refl, ground arith)
    | inl b ↦ (
      16 ∷ (sz % 128 + 128) ∷ (sz / 128 % 128 + 128) ∷ sz / 128 / 128 ∷ 0 ∷ 0 ∷ [],
      3,
      ground arith,
      ground arith,
    )
  ]
]

length-str_bytes : (s : Bytes) → length (str_bytes s) ≡ 2 + length s
length-str_bytes s = omega arith

will_size-will_bytes : (c : Client) → will_size c ≡ length (will_bytes c)
unfolding will_size
will_size-will_bytes c = elim (Bool-cases (is_given c.lw_topic)) [
  | inl e ↦ rw e (omega (arith, length-append (str_bytes (given c.lw_topic)) (str_bytes c.lw_msg)))
  | inr e ↦ rw e refl
]

user_size-user_bytes : (c : Client) (n : ℕ) → user_size c ≡ ok n → n ≡ length (user_bytes c)
unfolding user_size
user_size-user_bytes c n e =
    ground (arith, length-append (str_bytes (given c.user)) (str_bytes (given c.pswd)))

module _ {H : Type 0} (k : Host H) (view : H → Traffic) (stream : IsStream k view) where
  two_strs :
      (c : Client) (t : Traffic) (a b : Bytes) (s : State H)
      → At view c t s
      → Returns
          (λ _. Wrote k view stream c t (str_bytes a ++ str_bytes b))
          ((send_str k a >> send_str k b) s)
  two_strs c t a b s g =
      bind_Returns (λ _. Wrote k view stream c t (str_bytes a))
        (λ _. Wrote k view stream c t (str_bytes a ++ str_bytes b)) (send_str k a)
        (λ _. send_str k b) s (send_str_lem k view stream c t a s g)
        (λ _ u p.
          rw (append_assoc t.outgoing (str_bytes a) (str_bytes b)) at (
            send_str_lem k view stream c (record t { outgoing = t.outgoing ++ str_bytes a }) b u p))

  -- Both strings, or none.
  if_strs :
      (c : Client) (t : Traffic) (sent : Bool) (a b : Bytes) (s : State H)
      → At view c t s
      → Returns
          (λ _. Wrote k view stream c t (if sent then str_bytes a ++ str_bytes b else []))
          ((if sent then send_str k a >> send_str k b else pure tt) s)
  if_strs c t true a b s g = two_strs c t a b s g
  if_strs c t false a b s g = record {
    client = g.client;
    traffic = g.traffic ∙ ap (λ out. record t { outgoing = out }) (sym (append-nil t.outgoing));
  }

  send_will_lem :
      (c : Client) (t : Traffic) (s : State H)
      → At view c t s
      → Returns (λ _. Wrote k view stream c t (will_bytes c)) (send_will k c s)
  unfolding send_will
  send_will_lem c t s g = if_strs c t (is_given c.lw_topic) (given c.lw_topic) c.lw_msg s g

  send_user_lem :
      (c : Client) (t : Traffic) (s : State H)
      → At view c t s
      → Returns (λ _. Wrote k view stream c t (user_bytes c)) (send_user k c s)
  unfolding send_user
  send_user_lem c t s g = if_strs c t (is_given c.user) (given c.user) (given c.pswd) s g

  connack_lem :
      (c : Client) (t : Traffic) (flags : ℕ) (ys : Bytes) (s : State H)
      → t.incoming ≡ 32 ∷ 2 ∷ flags ∷ 0 ∷ ys
      → At view c t s
      → Returns
          (λ r u. (r ≡ bit_and flags 1) × At view c (record t { incoming = ys }) u)
          (read_connack k s)
  unfolding read_connack
  connack_lem c t flags ys s e g =
      bind_Returns
        (λ r u. (r ≡ some (32 ∷ 2 ∷ flags ∷ 0 ∷ [])) × At view c (record t { incoming = ys }) u)
        (λ r u. (r ≡ bit_and flags 1) × At view c (record t { incoming = ys }) u) (read k (pos 4))
        (λ resp. lift (index resp 0) >>= λ kind.
          assert (kind == 32)
          >> (lift (index resp 1) >>= λ size.
              assert (size == 2)
              >> (lift (index resp 3) >>= λ code. lift (index resp 2) >>= λ f.
                  if code == 0 then pure (bit_and f 1) else fail (package_error code))))
        s (read_lem k view stream c t (32 ∷ 2 ∷ flags ∷ 0 ∷ []) ys s e g)
        (λ r u a. rw a.0 (refl, a.1))

  -- The writes of `connect` behind its header.
  abbrev rest : Client → Action H ℕ
  rest c = send_str k c.client_id >> (send_will k c >> (send_user k c >> read_connack k))

  rest_lem :
      (c : Client) (t : Traffic) (flags : ℕ) (ys : Bytes) (s : State H)
      → t.incoming ≡ 32 ∷ 2 ∷ flags ∷ 0 ∷ ys
      → At view c t s
      → Returns
          (λ r u.
            (r ≡ bit_and flags 1)
            × Wrote k view stream c
                (record t { incoming = ys })
                (str_bytes c.client_id ++ (will_bytes c ++ user_bytes c))
                u)
          (rest c s)
  rest_lem c t flags ys s e g =
      bind_Returns (λ _. Wrote k view stream c t (str_bytes c.client_id)) Q (send_str k c.client_id)
        (λ _. send_will k c >> (send_user k c >> read_connack k)) s
        (send_str_lem k view stream c t c.client_id s g)
        (λ _ u p.
          bind_Returns (λ _. Wrote k view stream c (wrote one) (will_bytes c)) Q (send_will k c)
            (λ _. send_user k c >> read_connack k) u (send_will_lem c (wrote one) u p)
            (λ _ v q.
              bind_Returns (λ _. Wrote k view stream c (wrote two) (user_bytes c)) Q (send_user k c)
                (λ _. read_connack k) v (send_user_lem c (wrote two) v q)
                (λ _ w r.
                  rw (regroup t.outgoing) at
                    (connack_lem c (wrote (two ++ user_bytes c)) flags ys w e r))))
    where
      one : Bytes
      one = t.outgoing ++ str_bytes c.client_id

      two : Bytes
      two = one ++ will_bytes c

      wrote : Bytes → Traffic
      wrote out = record t { outgoing = out }

      Q : ℕ → State H → Type 0
      Q r u =
          (r ≡ bit_and flags 1)
          × Wrote k view stream c (record t { incoming = ys })
              (str_bytes c.client_id ++ (will_bytes c ++ user_bytes c)) u

      regroup :
          (out : Bytes)
          → ((out ++ str_bytes c.client_id) ++ will_bytes c) ++ user_bytes c
            ≡ out ++ (str_bytes c.client_id ++ (will_bytes c ++ user_bytes c))
      regroup out = simp append_assoc

  -- `connect` behind the opening of the socket.
  as_client : Bool → Client → Action H ℕ
  as_client clean c = lift (user_size c) >>= λ user.
      assert (ltb c.keepalive 65536)
      >> (lift (
            store_length 5 (16 ∷ 0 ∷ 0 ∷ 0 ∷ 0 ∷ 0 ∷ []) 1
              (10 + 2 + length c.client_id + user + will_size c))
          >>= λ p. write k (take (p.1 + 2) p.0) >> (write k (connect_msg c clean) >> rest c))

  module _ (c : Client) (t : Traffic) (clean : Bool) (flags : ℕ) (ys : Bytes)
      (come : t.incoming ≡ 32 ∷ 2 ∷ flags ∷ 0 ∷ ys) where
    abbrev pub Connected : Bytes → ℕ → State H → Type 0
    Connected body r u =
        (r ≡ bit_and flags 1)
        × Wrote k view stream c (record t { incoming = ys }) (16 ∷ (encoded (length body) ++ body))
            u

    abbrev SentAll : ℕ → State H → Type 0
    SentAll = Connected (sent_body c clean)

    abbrev head : Bytes
    head = 16 ∷ (encoded (length (sent_body c clean)) ++ 0 ∷ [])

    -- The two writes of the header and the fixed part.
    headed :
        (s : State H)
        → At view c t s
        → Returns SentAll ((write k head >> (write k (connect_msg c clean) >> rest c)) s)
    headed s g =
        bind_Returns (λ _. Wrote k view stream c t head) SentAll (write k head)
          (λ _. write k (connect_msg c clean) >> rest c) s (write_lem k view stream c t head s g)
          (λ _ u p.
            bind_Returns
              (λ _. At view c (record t { outgoing = (t.outgoing ++ head) ++ connect_msg c clean }))
              SentAll (write k (connect_msg c clean)) (λ _. rest c) u
              (write_lem k view stream c (record t { outgoing = t.outgoing ++ head })
                (connect_msg c clean) u p)
              (λ _ v q. rw (regroup t.outgoing) at (
                rest_lem c (record t { outgoing = (t.outgoing ++ head) ++ connect_msg c clean })
                  flags ys v come q)))
      where
        regroup :
            (out : Bytes)
            → ((out ++ head) ++ connect_msg c clean)
                ++ (str_bytes c.client_id ++ (will_bytes c ++ user_bytes c))
              ≡ out ++ (16 ∷ (encoded (length (sent_body c clean)) ++ sent_body c clean))
        regroup out = simp append_assoc

    total :
        (n : ℕ)
        → user_size c ≡ ok n
        → 10 + 2 + length c.client_id + n + will_size c ≡ length (sent_body c clean)
    total n e = omega (
      arith,
      user_size-user_bytes c n e,
      will_size-will_bytes c,
      length-append (will_bytes c) (user_bytes c),
      length-append c.client_id (will_bytes c ++ user_bytes c),
    )

    as_client_lem :
        (n : ℕ) (s : State H)
        → user_size c ≡ ok n
        → c.keepalive < 65536
        → length (sent_body c clean) < 2097152
        → At view c t s
        → Returns SentAll (as_client clean c s)
    unfolding as_client
    as_client_lem n s user alive small g = rw user (
        bind_Returns (λ _. At view c t) SentAll (assert (ltb c.keepalive 65536))
          (λ _.
            lift (
              store_length 5 (16 ∷ 0 ∷ 0 ∷ 0 ∷ 0 ∷ 0 ∷ []) 1
                (10 + 2 + length c.client_id + n + will_size c))
            >>= λ p. write k (take (p.1 + 2) p.0) >> (write k (connect_msg c clean) >> rest c))
          s (assert_lem k view stream (At view c t) (ltb c.keepalive 65536) s (ground arith) g)
          (λ _ u p. rw (total n user) (
            let (pkt, i, stored, cut) = store_length_5 (length (sent_body c clean)) small in
            bind_Returns (λ r v. (r ≡ (pkt, i)) × At view c t v) SentAll
              (lift (store_length 5 (16 ∷ 0 ∷ 0 ∷ 0 ∷ 0 ∷ 0 ∷ []) 1 (length (sent_body c clean))))
              (λ p. write k (take (p.1 + 2) p.0) >> (write k (connect_msg c clean) >> rest c)) u
              (lift-Returns (λ r v. (r ≡ (pkt, i)) × At view c t v) _ (pkt, i) u stored (refl, p))
              (λ r v q. rw (q.0, cut) (headed v q.1)))))

    connect-SentAll :
        (n : ℕ) (s : State H)
        → user_size c ≡ ok n
        → c.keepalive < 65536
        → length (sent_body c clean) < 2097152
        → At view c t s
        → Returns SentAll (connect k clean s)
    unfolding connect as_client
    connect-SentAll n s user alive small g =
        subst (λ d. Returns SentAll (as_client clean d (record s { host = k.open_socket s.host })))
          (sym g.client)
          (as_client_lem n (record s { host = k.open_socket s.host }) user alive small
            (record { client = g.client; traffic = stream.opens s.host ∙ g.traffic }))

    -- Where the sizes fit, the keep-alive time is below 65536, the quality of the will is 0, 1 or 2, a
    -- user has a password, and the server accepts, `connect` writes a packet whose header has the
    -- length of exactly what follows: the name and level of the protocol, the flags of a clean
    -- session, of the will with its quality and of the user, the keep-alive time, the identifier, the
    -- will and the user's name and password, each with its length; it leaves what follows the answer,
    -- and returns the lowest bit of its flags.
    pub connect-Connected :
        (n : ℕ) (s : State H)
        → user_size c ≡ ok n
        → c.keepalive < 65536
        → c.lw_qos < 3
        → length (connect_body c clean) < 2097152
        → At view c t s
        → Returns (Connected (connect_body c clean)) (connect k clean s)
    connect-Connected n s user alive quality small g =
        let e = sent_body-eq c clean quality alive in
        subst (λ b. Returns (Connected b) (connect k clean s)) e
          (connect-SentAll n s user alive (omega (arith, ap length e, small)) g)
