-- ===== src/Mqtt/Messages.antt =====
-- A PUBLISH packet as `wait_msg` reads it.
use micropython_lib.Prelude.{
  ℕ, suc, ◌+◌, ◌<◌, ◌≡◌, refl, ap, sym, ◌∙◌, arith, Bool, true, false, if◌then◌else◌, [], ◌∷◌, ◌++◌,
  Option, none, some, length, type_error,
}
use micropython_lib.Prelude.Int.{ℤ, pos, ◌-ℤ◌, int_laws}
use micropython_lib.Prelude.Slices.{append_assoc}
use micropython_lib.Mqtt.{
  ◌>>=◌, ◌>>◌, pure, fail, tells, Bytes, Host, Client, State, Action, word, read, read_word,
  read_pid, recv_len, call_back, acknowledge, receive, dispatch, dispatch_read, wait_msg,
}
use micropython_lib.Mqtt.Calls.{
  Traffic, IsStream, At, Returns, bind_Returns, if_Returns, write_lem, read_lem, read_word_lem,
}
use micropython_lib.Mqtt.Lengths.{encoded, Read, recv_len-encoded}

-- The first byte of a packet that is retained or not, with an identifier or none.
abbrev pub first_byte : Bool → Option ℕ → ℕ
first_byte retain none = if retain then 49 else 48
first_byte retain (some pid) = if retain then 51 else 50

abbrev pub id_bytes : Option ℕ → Bytes
id_bytes none = []
id_bytes (some pid) = word pid

abbrev pub IsWord : Option ℕ → Type 0
IsWord none = Unit {0}
IsWord (some pid) = pid < 65536

abbrev pub packet_size : Option ℕ → Bytes → Bytes → ℕ
packet_size id topic msg = length topic + 2 + (length (id_bytes id) + length msg)

abbrev pub packet : Bool → Option ℕ → Bytes → Bytes → Bytes
packet retain id topic msg =
    first_byte retain id
    ∷ (encoded (packet_size id topic msg)
        ++ (word (length topic) ++ (topic ++ (id_bytes id ++ msg))))

-- An identifier is acknowledged.
abbrev pub acked : Option ℕ → Bytes → Bytes
acked none out = out
acked (some pid) out = out ++ (64 ∷ 2 ∷ word pid)

abbrev id_or_zero : Option ℕ → ℕ
id_or_zero none = 0
id_or_zero (some pid) = pid

minus_two : (n : ℕ) → pos (2 + n) -ℤ pos 2 ≡ pos n
minus_two n = omega int_laws

minus : (n m : ℕ) → pos (n + m) -ℤ pos n ≡ pos m
minus n m = omega int_laws

true-ne-false : true ≡ false → ⊥
true-ne-false e = cc

module _ {H : Type 0} (k : Host H) (view : H → Traffic) (stream : IsStream k view) where
  read_pid_lem :
      (c : Client) (t : Traffic) (retain : Bool) (id : Option ℕ) (n : ℕ) (ys : Bytes) (s : State H)
      → IsWord id
      → t.incoming ≡ id_bytes id ++ ys
      → At view c t s
      → Returns
          (λ r u. (r ≡ (id_or_zero id, pos n)) × At view c (record t { incoming = ys }) u)
          (read_pid k (first_byte retain id) (pos (length (id_bytes id) + n)) s)
  unfolding read_pid
  read_pid_lem c t true none n ys s h e g = (
    ap (λ m. (0, pos m)) (omega arith),
    record { client = g.client; traffic = g.traffic ∙ ap (λ xs. record t { incoming = xs }) e },
  )
  read_pid_lem c t false none n ys s h e g = (
    ap (λ m. (0, pos m)) (omega arith),
    record { client = g.client; traffic = g.traffic ∙ ap (λ xs. record t { incoming = xs }) e },
  )
  read_pid_lem c t true (some pid) n ys s h e g =
      bind_Returns (λ r u. (r ≡ pid) × At view c (record t { incoming = ys }) u) _ (read_word k)
        (λ p. pure (p, pos (2 + n) -ℤ pos 2)) s (read_word_lem k view stream c t pid ys s h e g)
        (λ r u a. (ap (λ p. (p, pos (2 + n) -ℤ pos 2)) a.0 ∙ ap (λ z. (pid, z)) (minus_two n), a.1))
  read_pid_lem c t false (some pid) n ys s h e g =
      bind_Returns (λ r u. (r ≡ pid) × At view c (record t { incoming = ys }) u) _ (read_word k)
        (λ p. pure (p, pos (2 + n) -ℤ pos 2)) s (read_word_lem k view stream c t pid ys s h e g)
        (λ r u a. (ap (λ p. (p, pos (2 + n) -ℤ pos 2)) a.0 ∙ ap (λ z. (pid, z)) (minus_two n), a.1))

  acknowledge_lem :
      (c : Client) (t : Traffic) (retain : Bool) (id : Option ℕ) (s : State H)
      → At view c t s
      → Returns
          (λ _. At view c (record t { outgoing = acked id t.outgoing }))
          (acknowledge k (first_byte retain id) (id_or_zero id) s)
  unfolding acknowledge
  acknowledge_lem c t true none s g = g
  acknowledge_lem c t false none s g = g
  acknowledge_lem c t true (some pid) s g = write_lem k view stream c t (64 ∷ 2 ∷ word pid) s g
  acknowledge_lem c t false (some pid) s g = write_lem k view stream c t (64 ∷ 2 ∷ word pid) s g

  call_back_lem :
      (c : Client) (t : Traffic) (topic msg : Bytes) (s : State H)
      → c.has_cb ≡ true
      → At view c t s
      → Returns
          (λ _. At view c (record t { delivered = t.delivered ++ (topic, msg) ∷ [] }))
          (call_back k (some topic) (some msg) s)
  unfolding call_back
  call_back_lem c t topic msg s e g =
      if_Returns (λ _. At view c (record t { delivered = t.delivered ++ (topic, msg) ∷ [] }))
        s.client.has_cb (tells (k.callback (some topic) (some msg))) (fail type_error) s
        (λ _. record {
          client = g.client;
          traffic =
              stream.calls topic msg s.host
              ∙ ap (λ (u : Traffic). record u { delivered = u.delivered ++ (topic, msg) ∷ [] })
                  g.traffic;
        })
        (λ z. true-ne-false (sym e ∙ ap (λ (d : Client). d.has_cb) (sym g.client) ∙ z))

  dispatch_publish :
      (rounds : ℕ) (retain : Bool) (id : Option ℕ) (s : State H)
      → dispatch k rounds (first_byte retain id ∷ []) s ≡ receive k rounds (first_byte retain id) s
  unfolding dispatch
  dispatch_publish rounds true none s = refl
  dispatch_publish rounds false none s = refl
  dispatch_publish rounds true (some pid) s = refl
  dispatch_publish rounds false (some pid) s = refl

  module _ (c : Client) (t : Traffic) (retain : Bool) (id : Option ℕ) (topic msg ys : Bytes) where
    -- What the packet leaves behind.
    abbrev pub Delivered : Option ℕ → State H → Type 0
    Delivered r u =
        (r ≡ some (first_byte retain id))
        × At view c
            (record {
              incoming = ys;
              outgoing = acked id t.outgoing;
              delivered = t.delivered ++ (topic, msg) ∷ [];
            })
            u

    abbrev left : Traffic → Bytes → Traffic
    left u xs = record u { incoming = xs }

    after_msg : Option Bytes → ℕ → Option Bytes → Action H (Option ℕ)
    after_msg top pid m =
        call_back k top m
        >> (acknowledge k (first_byte retain id) pid >> pure (some (first_byte retain id)))

    after_msg_lem :
        (s : State H)
        → c.has_cb ≡ true
        → At view c (left t ys) s
        → Returns Delivered (after_msg (some topic) (id_or_zero id) (some msg) s)
    unfolding after_msg
    after_msg_lem s e g =
        bind_Returns
          (λ _. At view c (record (left t ys) { delivered = t.delivered ++ (topic, msg) ∷ [] }))
          Delivered (call_back k (some topic) (some msg))
          (λ _.
            acknowledge k (first_byte retain id) (id_or_zero id)
            >> pure (some (first_byte retain id)))
          s (call_back_lem c (left t ys) topic msg s e g)
          (λ _ u a.
            bind_Returns
              (λ _. At view c (record {
                incoming = ys;
                outgoing = acked id t.outgoing;
                delivered = t.delivered ++ (topic, msg) ∷ [];
              }))
              Delivered (acknowledge k (first_byte retain id) (id_or_zero id))
              (λ _. pure (some (first_byte retain id))) u
              (acknowledge_lem c
                (record (left t ys) { delivered = t.delivered ++ (topic, msg) ∷ [] }) retain id u a)
              (λ _ v b. (refl, b)))

    after_pid : Option Bytes → ℕ × ℤ → Action H (Option ℕ)
    after_pid top p = read k p.1 >>= after_msg top p.0

    after_pid_lem :
        (s : State H)
        → c.has_cb ≡ true
        → At view c (left t (msg ++ ys)) s
        → Returns Delivered (after_pid (some topic) (id_or_zero id, pos (length msg)) s)
    unfolding after_pid
    after_pid_lem s e g =
        bind_Returns (λ r u. (r ≡ some msg) × At view c (left t ys) u) Delivered
          (read k (pos (length msg))) (after_msg (some topic) (id_or_zero id)) s
          (read_lem k view stream c (left t (msg ++ ys)) msg ys s refl g)
          (λ r u a. rw a.0 (after_msg_lem u e a.1))

    after_topic : ℕ → Option Bytes → Action H (Option ℕ)
    after_topic sz top =
        read_pid k (first_byte retain id) (pos sz -ℤ pos (length topic + 2)) >>= after_pid top

    after_topic_lem :
        (s : State H)
        → c.has_cb ≡ true
        → IsWord id
        → At view c (left t (id_bytes id ++ (msg ++ ys))) s
        → Returns Delivered (after_topic (packet_size id topic msg) (some topic) s)
    unfolding after_topic
    after_topic_lem s e h g = rw (minus (length topic + 2) (length (id_bytes id) + length msg)) (
        bind_Returns
          (λ r u. (r ≡ (id_or_zero id, pos (length msg))) × At view c (left t (msg ++ ys)) u)
          Delivered (read_pid k (first_byte retain id) (pos (length (id_bytes id) + length msg)))
          (after_pid (some topic)) s
          (read_pid_lem c (left t (id_bytes id ++ (msg ++ ys))) retain id (length msg) (msg ++ ys) s
            h refl g)
          (λ r u a. rw a.0 (after_pid_lem u e a.1)))

    after_len : ℕ → ℕ → Action H (Option ℕ)
    after_len sz n = read k (pos n) >>= λ top.
        read_pid k (first_byte retain id) (pos sz -ℤ pos (n + 2)) >>= after_pid top

    after_len_lem :
        (s : State H)
        → c.has_cb ≡ true
        → IsWord id
        → At view c (left t (topic ++ (id_bytes id ++ (msg ++ ys)))) s
        → Returns Delivered (after_len (packet_size id topic msg) (length topic) s)
    unfolding after_len after_topic
    after_len_lem s e h g =
        bind_Returns (λ r u. (r ≡ some topic) × At view c (left t (id_bytes id ++ (msg ++ ys))) u)
          Delivered (read k (pos (length topic))) (after_topic (packet_size id topic msg)) s
          (read_lem k view stream c (left t (topic ++ (id_bytes id ++ (msg ++ ys)))) topic
            (id_bytes id ++ (msg ++ ys)) s refl g)
          (λ r u a. rw a.0 (after_topic_lem u e h a.1))

    after_size : ℕ → Action H (Option ℕ)
    after_size sz = read_word k >>= after_len sz

    after_size_lem :
        (s : State H)
        → c.has_cb ≡ true
        → IsWord id
        → length topic < 65536
        → At view c (left t (word (length topic) ++ (topic ++ (id_bytes id ++ (msg ++ ys))))) s
        → Returns Delivered (after_size (packet_size id topic msg) s)
    unfolding after_size
    after_size_lem s e h small g =
        bind_Returns
          (λ r u. (r ≡ length topic) × At view c (left t (topic ++ (id_bytes id ++ (msg ++ ys)))) u)
          Delivered (read_word k) (after_len (packet_size id topic msg)) s
          (read_word_lem k view stream c
            (left t (word (length topic) ++ (topic ++ (id_bytes id ++ (msg ++ ys))))) (length topic)
            (topic ++ (id_bytes id ++ (msg ++ ys))) s small refl g)
          (λ r u a. rw a.0 (after_len_lem u e h a.1))

    receive_lem :
        (rounds : ℕ) (s : State H)
        → c.has_cb ≡ true
        → IsWord id
        → length topic < 65536
        → packet_size id topic msg < 2097152
        → At view c
            (left t (
              encoded (packet_size id topic msg)
              ++ (word (length topic) ++ (topic ++ (id_bytes id ++ (msg ++ ys))))))
            s
        → Returns Delivered (receive k (suc (suc (suc rounds))) (first_byte retain id) s)
    unfolding receive after_size after_len after_pid after_msg
    receive_lem rounds s e h small sized g =
        bind_Returns
          (Read k view stream c t (packet_size id topic msg)
            (word (length topic) ++ (topic ++ (id_bytes id ++ (msg ++ ys)))))
          Delivered (recv_len k (suc (suc (suc rounds))) 0 0) after_size s
          (recv_len-encoded k view stream c
            (left t (
              encoded (packet_size id topic msg)
              ++ (word (length topic) ++ (topic ++ (id_bytes id ++ (msg ++ ys))))))
            (packet_size id topic msg)
            (word (length topic) ++ (topic ++ (id_bytes id ++ (msg ++ ys)))) rounds s sized refl g)
          (λ r u a. rw a.0 (after_size_lem u e h small a.1))

    packet-append :
        packet retain id topic msg ++ ys
        ≡ first_byte retain id
          ∷ (encoded (packet_size id topic msg)
              ++ (word (length topic) ++ (topic ++ (id_bytes id ++ (msg ++ ys)))))
    packet-append = simp append_assoc

    -- `wait_msg` reads the packet, hands its topic and message to the callback, acknowledges an
    -- identifier, and returns the first byte.
    pub wait_msg-Delivered :
        (rounds : ℕ) (s : State H)
        → c.has_cb ≡ true
        → IsWord id
        → length topic < 65536
        → packet_size id topic msg < 2097152
        → t.incoming ≡ packet retain id topic msg ++ ys
        → At view c t s
        → Returns Delivered (wait_msg k (suc (suc (suc rounds))) s)
    unfolding wait_msg
    wait_msg-Delivered rounds s e h small sized come g =
        bind_Returns (λ r u. (r ≡ some (first_byte retain id ∷ [])) × At view c (left t rest) u)
          Delivered (read k (pos 1))
          (λ r. tells (k.set_blocking true) >> dispatch_read k (suc (suc (suc rounds))) r) s
          (read_lem k view stream c t (first_byte retain id ∷ []) rest s (come ∙ packet-append) g)
          (λ r u a. rw a.0 (
            let v : State H = record u { host = k.set_blocking true u.host } in
            rw (dispatch_publish (suc (suc (suc rounds))) retain id v) (
              receive_lem rounds v e h small sized (record {
                client = a.1.client;
                traffic = stream.blocks true u.host ∙ a.1.traffic;
              }))))
      where
        rest : Bytes
        rest =
            encoded (packet_size id topic msg)
            ++ (word (length topic) ++ (topic ++ (id_bytes id ++ (msg ++ ys))))
