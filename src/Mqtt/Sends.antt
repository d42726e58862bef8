-- ===== src/Mqtt/Sends.antt =====
-- The packets that `MQTTClient` sends: connect, publish, subscribe, unsubscribe, ping, disconnect.
use micropython_lib.Prelude.{
  ℕ, zero, suc, ◌+◌, ◌*◌, ◌%◌, Bool, false, ltb, ◌==◌, if◌then◌else◌, [], ◌∷◌, Option, none, some,
  assertion_error, package_error, length, take, get_or, bit_and, bit_or,
}
use micropython_lib.Prelude.Int.{pos}
use micropython_lib.Mqtt.{
  ◌>>=◌, ◌>>◌, pure, fail, lift, assert, self, modify, tells, Bytes, Host, Client, Action,
  out_of_rounds, word, index, given, is_given, bit, store_length, user_size, will_size, connect_msg,
  write, read, send_str, read_word, wait_msg,
}

-- Whether `wait_msg` returned this packet type.
abbrev pub is_op : Option ℕ → ℕ → Bool
is_op none n = false
is_op (some op) n = op == n

abbrev pub is_bytes : Option Bytes → ℕ → Bool
is_bytes none n = false
is_bytes (some []) n = false
is_bytes (some (x ∷ [])) n = x == n
is_bytes (some (x ∷ y ∷ b)) n = false

module _ {H : Type 0} (k : Host H) where
  unfoldable pub send_will : Client → Action H (Unit {0})
  send_will c =
      if is_given c.lw_topic
      then (do send_str k (given c.lw_topic); send_str k c.lw_msg)
      else pure tt

  unfoldable pub send_user : Client → Action H (Unit {0})
  send_user c =
      if is_given c.user then (do send_str k (given c.user); send_str k (given c.pswd)) else pure tt

  -- The answer to `connect`.
  unfoldable pub read_connack : Action H ℕ
  read_connack = do
    resp ← read k (pos 4)
    kind ← lift (index resp 0)
    assert (kind == 32)
    size ← lift (index resp 1)
    assert (size == 2)
    code ← lift (index resp 3)
    flags ← lift (index resp 2)
    if code == 0 then pure (bit_and flags 1) else fail (package_error code)

  unfoldable pub connect : Bool → Action H ℕ
  connect clean_session = do
    tells k.open_socket
    c ← self
    user ← lift (user_size c)
    assert (ltb c.keepalive 65536)
    (premsg, i) ← lift (
        store_length 5 (16 ∷ 0 ∷ 0 ∷ 0 ∷ 0 ∷ 0 ∷ []) 1
          (10 + 2 + length c.client_id + user + will_size c))
    write k (take (i + 2) premsg)
    write k (connect_msg c clean_session)
    send_str k c.client_id
    send_will c
    send_user c
    read_connack

  unfoldable pub disconnect : Action H (Unit {0})
  disconnect = do write k (224 ∷ 0 ∷ []); tells k.close

  unfoldable pub ping : Action H (Unit {0})
  ping = write k (192 ∷ 0 ∷ [])

  -- `self.pid += 1`, and its value.
  unfoldable pub next_pid : Action H ℕ
  next_pid = do modify (λ c. record c { pid = c.pid + 1 }); c ← self; pure c.pid

  -- The loop of `publish` that waits for the acknowledgement of `pid`.
  unfoldable pub await_ack : ℕ → ℕ → Action H (Unit {0})
  await_ack zero pid = out_of_rounds
  await_ack (suc rounds) pid = do
    op ← wait_msg k (suc rounds)
    let again = await_ack rounds pid
    if is_op op 64
        then (do
          size ← read k (pos 1)
          assert (is_bytes size 2)
          received ← read_word k
          if pid == received then pure tt else again)
        else again

  unfoldable pub send_pid : ℕ → Action H ℕ
  send_pid qos = if ltb 0 qos then (do pid ← next_pid; write k (word pid); pure pid) else pure 0

  -- The first byte of a packet and its remaining length.
  unfoldable pub send_header : ℕ → ℕ → Action H (Unit {0})
  send_header first sz = do
    (pkt, i) ← lift (store_length 3 (first ∷ 0 ∷ 0 ∷ 0 ∷ []) 1 sz)
    write k (take (i + 1) pkt)

  -- What `publish` does behind the last write.
  unfoldable pub settle : ℕ → ℕ → ℕ → Action H (Unit {0})
  settle rounds qos pid =
      if qos == 1 then await_ack rounds pid else if qos == 2 then fail assertion_error else pure tt

  unfoldable pub publish : ℕ → Bytes → Bytes → Bool → ℕ → Action H (Unit {0})
  publish rounds topic msg retain qos = do
    let sz = 2 + length topic + length msg + (if ltb 0 qos then 2 else 0)
    assert (ltb sz 2097152)
    send_header (bit_or 48 (bit_or (qos * 2) (bit retain)) % 256) sz
    send_str k topic
    pid ← send_pid qos
    write k msg
    settle rounds qos pid

  -- The loops of `subscribe` and `unsubscribe`, which wait for `kind` with the identifier of `pkt`.
  unfoldable pub await_answer : ℕ → ℕ → ℕ → ℕ → Action H (Option Bytes)
  await_answer zero kind size pid = out_of_rounds
  await_answer (suc rounds) kind size pid = do
    op ← wait_msg k (suc rounds)
    let again = await_answer rounds kind size pid
    if is_op op kind
        then (do
          resp ← read k (pos size)
          high ← lift (index resp 1)
          assert (high == get_or (word pid) 0 0)
          low ← lift (index resp 2)
          assert (low == get_or (word pid) 1 0)
          pure resp)
        else again

  unfoldable pub subscribe : ℕ → Bytes → ℕ → Action H (Unit {0})
  subscribe rounds topic qos = do
    c ← self
    assert c.has_cb
    pid ← next_pid
    write k (130 ∷ (2 + 2 + length topic + 1) % 256 ∷ word pid)
    send_str k topic
    write k (qos % 256 ∷ [])
    resp ← await_answer rounds 144 4 pid
    code ← lift (index resp 3)
    if code == 128 then fail (package_error code) else pure tt

  unfoldable pub unsubscribe : ℕ → Bytes → Action H (Unit {0})
  unsubscribe rounds topic = do
    pid ← next_pid
    write k (162 ∷ (2 + 2 + length topic) % 256 ∷ word pid)
    send_str k topic
    await_answer rounds 176 3 pid
    pure tt
