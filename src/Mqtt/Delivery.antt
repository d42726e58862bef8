-- ===== src/Mqtt/Delivery.antt =====
-- What `publish` sends is what `wait_msg` of another client delivers.
use micropython_lib.Prelude.{
  ℕ, suc, ◌+◌, ◌*◌, ◌%◌, ◌<◌, ◌≡◌, refl, ap, ◌∙◌, arith, Bool, true, false, ltb, ◌==◌,
  if◌then◌else◌, [], ◌∷◌, ◌++◌, Option, none, some, length, take, bit_or,
}
use micropython_lib.Prelude.Int.{pos}
use micropython_lib.Prelude.Slices.{append_assoc}
use micropython_lib.Mqtt.{
  ◌>>=◌, ◌>>◌, pure, done, assert, lift, tells, Bytes, Host, Client, State, Action, word, bit,
  store_length, write, read, send_str, read_word, wait_msg, dispatch, dispatch_read,
}
use micropython_lib.Mqtt.Sends.{
  is_op, is_bytes, send_header, send_pid, next_pid, settle, await_ack, publish,
}
use micropython_lib.Mqtt.Calls.{
  Traffic, IsStream, At, Returns, bind_Returns, if_Returns, lift-Returns, write_lem, read_lem,
  send_str_lem, read_word_lem,
}
use micropython_lib.Mqtt.Lengths.{encoded, store_length_3}
use micropython_lib.Mqtt.Messages.{
  first_byte, packet_size, packet, acked, Delivered, wait_msg-Delivered,
}

abbrev qos_of : Option ℕ → ℕ
qos_of none = 0
qos_of (some pid) = 1

first_byte-qos_of :
    (retain : Bool) (id : Option ℕ)
    → bit_or 48 (bit_or (qos_of id * 2) (bit retain)) % 256 ≡ first_byte retain id
first_byte-qos_of true none = refl
first_byte-qos_of false none = refl
first_byte-qos_of true (some pid) = refl
first_byte-qos_of false (some pid) = refl

size-qos_of :
    (id : Option ℕ) (topic msg : Bytes)
    → 2 + length topic + length msg + (if ltb 0 (qos_of id) then 2 else 0)
      ≡ packet_size id topic msg
size-qos_of none topic msg = omega arith
size-qos_of (some pid) topic msg = omega arith

sized_test : (n : ℕ) → n < 2097152 → ltb n 2097152 ≡ true
sized_test n h = ground arith

module _ {H : Type 0} (k : Host H) (view : H → Traffic) (stream : IsStream k view) where
  abbrev pub Wrote : Client → Traffic → Bytes → State H → Type 0
  Wrote c t xs = At view c (record t { outgoing = t.outgoing ++ xs })

  pub assert_lem :
      (P : State H → Type 0) (b : Bool) (s : State H)
      → b ≡ true
      → P s
      → Returns (λ _. P) (assert b s)
  assert_lem P true s e p = p
  assert_lem P false s e p = cc

  header_lem :
      (c : Client) (t : Traffic) (first sz : ℕ) (s : State H)
      → sz < 2097152
      → At view c t s
      → Returns (λ _. Wrote c t (first ∷ encoded sz)) (send_header k first sz s)
  unfolding send_header
  header_lem c t first sz s h g =
      let (pkt, i, stored, cut) = store_length_3 first sz h in
      bind_Returns (λ r u. (r ≡ (pkt, i)) × At view c t u) (λ _. Wrote c t (first ∷ encoded sz))
        (lift (store_length 3 (first ∷ 0 ∷ 0 ∷ 0 ∷ []) 1 sz)) (λ r. write k (take (r.1 + 1) r.0)) s
        (lift-Returns (λ r u. (r ≡ (pkt, i)) × At view c t u) _ (pkt, i) s stored (refl, g))
        (λ r u a. rw (a.0, cut) (write_lem k view stream c t (first ∷ encoded sz) u a.1))

  -- The end of `publish` behind the topic.
  abbrev finish : ℕ → ℕ → Bytes → Action H (Unit {0})
  finish rounds qos msg = send_pid k qos >>= λ pid. write k msg >> settle k rounds qos pid

  -- All of `publish` up to there.
  start_lem :
      (c : Client) (t : Traffic) (retain : Bool) (id : Option ℕ) (topic msg : Bytes) (rounds : ℕ)
      (s : State H) (Q : Unit {0} → State H → Type 0)
      → packet_size id topic msg < 2097152
      → At view c t s
      → ((u : State H)
          → Wrote c t
              (first_byte retain id
                ∷ (encoded (packet_size id topic msg) ++ (word (length topic) ++ topic)))
              u
          → Returns Q (finish rounds (qos_of id) msg u))
      → Returns Q (publish k rounds topic msg retain (qos_of id) s)
  unfolding publish
  start_lem c t retain id topic msg rounds s Q h g rest =
      rw (first_byte-qos_of retain id, size-qos_of id topic msg)
        (bind_Returns (λ _. At view c t) Q (assert (ltb (packet_size id topic msg) 2097152))
          (λ _.
            send_header k (first_byte retain id) (packet_size id topic msg)
            >> (send_str k topic >> finish rounds (qos_of id) msg))
          s
          (assert_lem (At view c t) (ltb (packet_size id topic msg) 2097152) s
            (sized_test (packet_size id topic msg) h) g)
          (λ _ u a.
            bind_Returns (λ _. Wrote c t head) Q
              (send_header k (first_byte retain id) (packet_size id topic msg))
              (λ _. send_str k topic >> finish rounds (qos_of id) msg) u
              (header_lem c t (first_byte retain id) (packet_size id topic msg) u h a)
              (λ _ v b.
                bind_Returns
                  (λ _.
                    Wrote c (record t { outgoing = t.outgoing ++ head })
                      (word (length topic) ++ topic))
                  Q (send_str k topic) (λ _. finish rounds (qos_of id) msg) v
                  (send_str_lem k view stream c (record t { outgoing = t.outgoing ++ head }) topic v
                    b)
                  (λ _ w d.
                    rest w
                      (rw (append_assoc t.outgoing head (word (length topic) ++ topic)) at d)))))
    where
      head : Bytes
      head = first_byte retain id ∷ encoded (packet_size id topic msg)

  publish_0 :
      (c : Client) (t : Traffic) (retain : Bool) (topic msg : Bytes) (rounds : ℕ) (s : State H)
      → packet_size none topic msg < 2097152
      → At view c t s
      → Returns
          (λ _. Wrote c t (packet retain none topic msg))
          (publish k rounds topic msg retain 0 s)
  unfolding send_pid settle
  publish_0 c t retain topic msg rounds s h g =
      start_lem c t retain none topic msg rounds s (λ _. Wrote c t (packet retain none topic msg)) h
        g
        (λ u a.
          bind_Returns (λ _. Wrote c t (packet retain none topic msg)) _ (write k msg)
            (λ _. pure tt) u (rw (regroup t.outgoing) at (write_lem k view stream c _ msg u a))
            (λ _ v b. b))
    where
      regroup :
          (out : Bytes)
          → (out
                ++ (first_byte retain none
                    ∷ (encoded (packet_size none topic msg) ++ (word (length topic) ++ topic))))
              ++ msg
            ≡ out ++ packet retain none topic msg
      regroup out = simp append_assoc

  abbrev left : Traffic → Bytes → Traffic
  left t xs = record t { incoming = xs }

  -- A packet that is neither an answer to a ping nor a message is returned by its first byte.
  pub wait_msg-other :
      (c : Client) (t : Traffic) (op : ℕ) (ys : Bytes) (rounds : ℕ) (s : State H)
      → ((v : State H) → dispatch k rounds (op ∷ []) v ≡ (done (some op), v))
      → t.incoming ≡ op ∷ ys
      → At view c t s
      → Returns (λ r u. (r ≡ some op) × At view c (left t ys) u) (wait_msg k rounds s)
  unfolding wait_msg
  wait_msg-other c t op ys rounds s other e g =
      bind_Returns (λ r u. (r ≡ some (op ∷ [])) × At view c (left t ys) u)
        (λ r u. (r ≡ some op) × At view c (left t ys) u) (read k (pos 1))
        (λ r. tells (k.set_blocking true) >> dispatch_read k rounds r) s
        (read_lem k view stream c t (op ∷ []) ys s e g)
        (λ r u a. rw a.0 (
          let v : State H = record u { host = k.set_blocking true u.host } in
          rw (other v) (
            refl,
            record { client = a.1.client; traffic = stream.blocks true u.host ∙ a.1.traffic },
          )))

  puback : (rounds : ℕ) (v : State H) → dispatch k rounds (64 ∷ []) v ≡ (done (some 64), v)
  unfolding dispatch
  puback rounds v = refl

  await_ack_lem :
      (c : Client) (t : Traffic) (pid rounds : ℕ) (zs : Bytes) (s : State H)
      → pid < 65536
      → t.incoming ≡ 64 ∷ 2 ∷ (word pid ++ zs)
      → At view c t s
      → Returns (λ _. At view c (left t zs)) (await_ack k (suc rounds) pid s)
  unfolding await_ack
  await_ack_lem c t pid rounds zs s h e g =
      bind_Returns (λ r u. (r ≡ some 64) × At view c (left t (2 ∷ (word pid ++ zs))) u)
        (λ _. At view c (left t zs)) (wait_msg k (suc rounds))
        (λ op. if is_op op 64 then acked_by else await_ack k rounds pid) s
        (wait_msg-other c t 64 (2 ∷ (word pid ++ zs)) (suc rounds) s (puback (suc rounds)) e g)
        (λ r u a. rw a.0 (
          bind_Returns (λ r u. (r ≡ some (2 ∷ [])) × At view c (left t (word pid ++ zs)) u)
            (λ _. At view c (left t zs)) (read k (pos 1))
            (λ size. assert (is_bytes size 2) >> (read_word k >>= compared)) u
            (read_lem k view stream c (left t (2 ∷ (word pid ++ zs))) (2 ∷ []) (word pid ++ zs) u
              refl a.1)
            (λ size v b. rw b.0 (
              bind_Returns (λ r u. (r ≡ pid) × At view c (left t zs) u) (λ _. At view c (left t zs))
                (read_word k) compared v
                (read_word_lem k view stream c (left t (word pid ++ zs)) pid zs v h refl b.1)
                (λ received w d. rw d.0 (
                  if_Returns (λ _. At view c (left t zs)) (pid == pid) (pure tt)
                    (await_ack k rounds pid) w (λ _. d.1) (λ z. absurd (differs pid z))))))))
    where
      compared : ℕ → Action H (Unit {0})
      compared received = if pid == received then pure tt else await_ack k rounds pid

      acked_by : Action H (Unit {0})
      acked_by = read k (pos 1) >>= λ size. assert (is_bytes size 2) >> (read_word k >>= compared)

      differs : (n : ℕ) → (n == n) ≡ false → ⊥
      differs n z = ground arith

  send_pid_lem :
      (c : Client) (t : Traffic) (s : State H)
      → At view c t s
      → Returns
          (λ r u. (r ≡ c.pid + 1) × Wrote (record c { pid = c.pid + 1 }) t (word (c.pid + 1)) u)
          (send_pid k 1 s)
  unfolding send_pid next_pid
  send_pid_lem c t s g =
      bind_Returns (λ _. Wrote (record c { pid = c.pid + 1 }) t (word (c.pid + 1)))
        (λ r u. (r ≡ c.pid + 1) × Wrote (record c { pid = c.pid + 1 }) t (word (c.pid + 1)) u)
        (write k (word (s.client.pid + 1))) (λ _. pure (s.client.pid + 1))
        (record s { client = record s.client { pid = s.client.pid + 1 } })
        (wrote s.client.pid (record s { client = record s.client { pid = s.client.pid + 1 } })
          (ap (λ (d : Client). d.pid) g.client)
          (record {
            client = ap (λ (d : Client). record d { pid = d.pid + 1 }) g.client;
            traffic = g.traffic;
          }))
        (λ _ u a. (ap (λ (d : Client). d.pid + 1) g.client, a))
    where
      wrote :
          (n : ℕ) (u : State H)
          → n ≡ c.pid
          → At view (record c { pid = c.pid + 1 }) t u
          → Returns
              (λ _. Wrote (record c { pid = c.pid + 1 }) t (word (c.pid + 1)))
              (write k (word (n + 1)) u)
      wrote n u e a =
          rw e (write_lem k view stream (record c { pid = c.pid + 1 }) t (word (c.pid + 1)) u a)

  -- The traffic and the client behind an acknowledged `publish`.
  abbrev pub Acknowledged : Client → Traffic → Bytes → Bytes → State H → Type 0
  Acknowledged c t sent zs =
      At view (record c { pid = c.pid + 1 })
        (record t { incoming = zs; outgoing = t.outgoing ++ sent })

  publish_1 :
      (c : Client) (t : Traffic) (retain : Bool) (topic msg zs : Bytes) (rounds : ℕ) (s : State H)
      → packet_size (some (c.pid + 1)) topic msg < 2097152
      → c.pid + 1 < 65536
      → t.incoming ≡ 64 ∷ 2 ∷ (word (c.pid + 1) ++ zs)
      → At view c t s
      → Returns
          (λ _. Acknowledged c t (packet retain (some (c.pid + 1)) topic msg) zs)
          (publish k (suc rounds) topic msg retain 1 s)
  unfolding settle
  publish_1 c t retain topic msg zs rounds s h small e g =
      start_lem c t retain (some (c.pid + 1)) topic msg (suc rounds) s Q h g (λ u a.
        bind_Returns (λ r u. (r ≡ c.pid + 1) × Wrote c' (sent head) (word (c.pid + 1)) u) Q
          (send_pid k 1) (λ pid. write k msg >> settle k (suc rounds) 1 pid) u
          (send_pid_lem c (sent head) u a)
          (λ r v b. rw b.0 (
            bind_Returns (λ _. At view c' (sent whole)) Q (write k msg)
              (λ _. await_ack k (suc rounds) (c.pid + 1)) v
              (rw (regroup t.outgoing) at (
                write_lem k view stream c'
                  (record t { outgoing = (t.outgoing ++ head) ++ word (c.pid + 1) }) msg v b.1))
              (λ _ w d. await_ack_lem c' (sent whole) (c.pid + 1) rounds zs w small e d))))
    where
      c' : Client
      c' = record c { pid = c.pid + 1 }

      whole : Bytes
      whole = packet retain (some (c.pid + 1)) topic msg

      Q : Unit {0} → State H → Type 0
      Q _ = Acknowledged c t (packet retain (some (c.pid + 1)) topic msg) zs

      head : Bytes
      head =
          first_byte retain (some (c.pid + 1))
          ∷ (encoded (packet_size (some (c.pid + 1)) topic msg) ++ (word (length topic) ++ topic))

      sent : Bytes → Traffic
      sent xs = record t { outgoing = t.outgoing ++ xs }

      regroup :
          (out : Bytes)
          → ((out
                  ++ (first_byte retain (some (c.pid + 1))
                      ∷ (encoded (packet_size (some (c.pid + 1)) topic msg)
                          ++ (word (length topic) ++ topic))))
                ++ word (c.pid + 1))
              ++ msg
            ≡ out ++ packet retain (some (c.pid + 1)) topic msg
      regroup out = simp append_assoc

  module _ (c d : Client) (t u : Traffic) (retain : Bool) (topic msg ys : Bytes) (rounds n : ℕ)
      (s r : State H) where
    -- At quality of service 0, and below the size limit, `publish` returns and has written a packet
    -- that `wait_msg` of a client with a callback reads: it hands over the topic and the message,
    -- writes nothing, leaves what follows the packet, and returns; three rounds are enough.
    pub publish-Delivered :
        packet_size none topic msg < 2097152
        → length topic < 65536
        → d.has_cb ≡ true
        → u.incoming ≡ packet retain none topic msg ++ ys
        → At view c t s
        → At view d u r
        → Returns (λ _. Wrote c t (packet retain none topic msg)) (publish k n topic msg retain 0 s)
          × Returns
              (Delivered k view stream d u retain none topic msg ys)
              (wait_msg k (suc (suc (suc rounds))) r)
    publish-Delivered h small e come g f = (
      publish_0 c t retain topic msg n s h g,
      wait_msg-Delivered k view stream d u retain none topic msg ys rounds r e tt small h come f,
    )

    -- At quality of service 1 with an identifier below 65536 the packet is delivered likewise, the
    -- receiver writes an acknowledgement with the identifier, and with that acknowledgement as its
    -- next input `publish` returns in one round, with the identifier counted up.
    pub publish-Acknowledged :
        packet_size (some (c.pid + 1)) topic msg < 2097152
        → length topic < 65536
        → c.pid + 1 < 65536
        → d.has_cb ≡ true
        → u.incoming ≡ packet retain (some (c.pid + 1)) topic msg ++ ys
        → u.outgoing ≡ []
        → t.incoming ≡ acked (some (c.pid + 1)) u.outgoing
        → At view c t s
        → At view d u r
        → Returns
            (Delivered k view stream d u retain (some (c.pid + 1)) topic msg ys)
            (wait_msg k (suc (suc (suc rounds))) r)
          × Returns
              (λ _. Acknowledged c t (packet retain (some (c.pid + 1)) topic msg) [])
              (publish k (suc n) topic msg retain 1 s)
    publish-Acknowledged h small ident e come fresh answer g f = (
      wait_msg-Delivered k view stream d u retain (some (c.pid + 1)) topic msg ys rounds r e ident
          small h come f,
      publish_1 c t retain topic msg [] n s h ident
          (answer ∙ ap (λ out. acked (some (c.pid + 1)) out) fresh) g,
    )
