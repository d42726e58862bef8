-- ===== src/Mqtt.antt =====
-- The class `MQTTClient` of micropython/umqtt.simple/umqtt/simple.py. The connection and the callback
-- of the application are the record `Host` of operations on a state of their own: `read` gives what
-- `sock.read` returns, None where a socket that does not block has nothing, and a negative size reads
-- up to the end. Topics and messages are bytes. Each unbounded loop takes the rounds that it may
-- make, and `more_rounds` says that they were not enough.
pub mod Sends
pub mod Calls
pub mod Lengths
pub mod Messages
pub mod Delivery
pub mod Overflow
pub mod Connecting
mod Tests
use micropython_lib.Prelude.{
  ℕ, zero, suc, ◌+◌, ◌-◌, ◌*◌, ◌/◌, ◌%◌, ◌^◌, Bool, true, false, not, ◌&&◌, ltb, leb, ◌==◌,
  if◌then◌else◌, List, [], ◌∷◌, ◌++◌, Option, none, some, Error, Result, ok, raise, assertion_error,
  type_error, index_error, os_error, package_error, length, set, take, get_elem?, bit_and, bit_or,
}
use micropython_lib.Prelude.Int.{ℤ, pos, ◌-ℤ◌}

abbrev pub Bytes : Type 0
Bytes = List ℕ

pub record Host (H : Type 0) : Type 0 where
  pub open_socket : H → H
  pub read : ℤ → H → Option Bytes × H
  pub write : Bytes → H → H
  pub set_blocking : Bool → H → H
  pub close : H → H
  pub callback : Option Bytes → Option Bytes → H → H

-- A topic of None stands for no last will; its message is read only with a topic.
pub record Client : Type 0 where
  pub client_id : Bytes
  pub user : Option Bytes
  pub pswd : Option Bytes
  pub keepalive : ℕ
  pub lw_topic : Option Bytes
  pub lw_msg : Bytes
  pub lw_qos : ℕ
  pub lw_retain : Bool
  pub pid : ℕ
  pub has_cb : Bool

pub data Outcome (A : Type 0) : Type 0 where
  done : A → Outcome A
  raised : Error → Outcome A
  more_rounds : Outcome A

pub record State (H : Type 0) : Type 0 where
  pub client : Client
  pub host : H

abbrev pub Action : Type 0 → Type 0 → Type 0
Action H A = State H → Outcome A × State H

module _ {H : Type 0} where
  infixl 5 ◌>>=◌ ◌>>◌
  abbrev pub ◌>>=◌ : {A B : Type 0} → Action H A → (A → Action H B) → Action H B
  ◌>>=◌ m f s =
      let (a, t) = m s in
      elim a [ done x ↦ f x t | raised e ↦ (raised e, t) | more_rounds ↦ (more_rounds, t) ]

  abbrev pub ◌>>◌ : {A B : Type 0} → Action H A → Action H B → Action H B
  m >> k = m >>= λ _. k

  abbrev pub pure : {A : Type 0} → A → Action H A
  pure a s = (done a, s)

  abbrev pub fail : {A : Type 0} → Error → Action H A
  fail e s = (raised e, s)

  abbrev pub out_of_rounds : {A : Type 0} → Action H A
  out_of_rounds s = (more_rounds, s)

  abbrev pub lift : {A : Type 0} → Result A → Action H A
  lift (ok a) s = (done a, s)
  lift (raise e) s = (raised e, s)

  abbrev pub assert : Bool → Action H (Unit {0})
  assert b = if b then pure tt else fail assertion_error

  abbrev pub self : Action H Client
  self s = (done s.client, s)

  abbrev pub modify : (Client → Client) → Action H (Unit {0})
  modify f s = (done tt, record s { client = f s.client })

  abbrev pub tells : (H → H) → Action H (Unit {0})
  tells f s = (done tt, record s { host = f s.host })

  abbrev pub asks : {A : Type 0} → (H → A × H) → Action H A
  asks f s = let (a, h) = f s.host in (done a, record s { host = h })

-- `struct.pack("!H", n)`
abbrev pub word : ℕ → Bytes
word n = (n / 256) % 256 ∷ n % 256 ∷ []

-- `b[i]` of what `read` returned.
abbrev pub index : Option Bytes → ℕ → Result ℕ
index none i = raise type_error
index (some b) i = elim (get_elem? b i) [ none ↦ raise index_error | some x ↦ ok x ]

-- None and an empty value are false.
abbrev pub given : Option Bytes → Bytes
given none = []
given (some b) = b

abbrev pub is_given : Option Bytes → Bool
is_given none = false
is_given (some []) = false
is_given (some (x ∷ b)) = true

abbrev pub size_of : Option Bytes → Result ℕ
size_of none = raise type_error
size_of (some b) = ok (length b)

abbrev pub bit : Bool → ℕ
bit b = if b then 1 else 0

-- The loop that writes the remaining length `sz` into `pkt` from index `i` on; `room` is how many
-- bytes `pkt` has from there. Returned are the packet and the index of the last byte of the length.
unfoldable pub store_length : ℕ → Bytes → ℕ → ℕ → Result (Bytes × ℕ)
store_length zero pkt i sz = raise index_error
store_length (suc room) pkt i sz =
    let rest = store_length room (set pkt i (sz % 128 + 128)) (i + 1) (sz / 128) in
    if ltb 127 sz then rest else ok (set pkt i sz, i)

-- `set_last_will`
unfoldable pub set_last_will : Client → Bytes → Bytes → Bool → ℕ → Result Client
set_last_will c topic msg retain qos =
    if leb qos 2 && is_given (some topic)
    then ok (record c { lw_topic = some topic; lw_msg = msg; lw_qos = qos; lw_retain = retain })
    else raise assertion_error

-- The size of the parts of `connect` that are sent only with a user, or only with a last will.
unfoldable pub user_size : Client → Result ℕ
user_size c =
    if is_given c.user
    then elim (size_of c.pswd) [ raise e ↦ raise e | ok n ↦ ok (2 + length (given c.user) + 2 + n) ]
    else ok 0

unfoldable pub will_size : Client → ℕ
will_size c = if is_given c.lw_topic then 2 + length (given c.lw_topic) + 2 + length c.lw_msg else 0

unfoldable pub connect_flags : Client → Bool → ℕ
connect_flags c clean_session =
    let user = if is_given c.user then 192 else 0 in
    let will =
      if is_given c.lw_topic
      then bit_or (bit_or 4 (bit_or (bit_and c.lw_qos 1 * 8) (bit_and c.lw_qos 2 * 8)))
          (bit c.lw_retain * 32)
      else 0 in
    bit_or (bit_or (bit clean_session * 2) user) will

-- The protocol's name behind its first length byte, its level, the flags and the keep-alive time.
abbrev pub connect_msg : Client → Bool → Bytes
connect_msg c clean_session =
    4
    ∷ 77
    ∷ 81
    ∷ 84
    ∷ 84
    ∷ 4
    ∷ connect_flags c clean_session
    ∷ c.keepalive / 256
    ∷ c.keepalive % 256
    ∷ []

module _ {H : Type 0} (k : Host H) where
  unfoldable pub write : Bytes → Action H (Unit {0})
  write b = tells (k.write b)

  unfoldable pub read : ℤ → Action H (Option Bytes)
  read n = asks (k.read n)

  unfoldable pub send_str : Bytes → Action H (Unit {0})
  send_str s = do write (word (length s)); write s

  -- `read(1)[0]`
  unfoldable pub read_byte : Action H ℕ
  read_byte = do b ← read (pos 1); lift (index b 0)

  -- `b = read(2)`, and `b[0] << 8 | b[1]`, which have no bit in common.
  unfoldable pub read_word : Action H ℕ
  read_word = do
    b ← read (pos 2)
    high ← lift (index b 0)
    low ← lift (index b 1)
    pure (high * 256 + low)

  -- `_recv_len`; the bits of `n` lie below `sh`.
  unfoldable pub recv_len : ℕ → ℕ → ℕ → Action H ℕ
  recv_len zero n sh = out_of_rounds
  recv_len (suc rounds) n sh = do
    b ← read_byte
    let n' = n + bit_and b 127 * 2 ^ sh
    let rest = recv_len rounds n' (sh + 7)
    if bit_and b 128 == 0 then pure n' else rest

  -- `if op & 6`: the identifier of the packet and what is left of the size.
  unfoldable pub read_pid : ℕ → ℤ → Action H (ℕ × ℤ)
  read_pid op sz =
      if bit_and op 6 == 0 then pure (0, sz) else (do pid ← read_word; pure (pid, sz -ℤ pos 2))

  unfoldable pub call_back : Option Bytes → Option Bytes → Action H (Unit {0})
  call_back topic msg = do
    c ← self
    if c.has_cb then tells (k.callback topic msg) else fail type_error

  unfoldable pub acknowledge : ℕ → ℕ → Action H (Unit {0})
  acknowledge op pid =
      if bit_and op 6 == 2
      then write (64 ∷ 2 ∷ word pid)
      else if bit_and op 6 == 4
      then fail assertion_error
      else pure tt

  -- `wait_msg` of a PUBLISH packet.
  unfoldable pub receive : ℕ → ℕ → Action H (Option ℕ)
  receive rounds op = do
    sz ← recv_len rounds 0 0
    topic_len ← read_word
    topic ← read (pos topic_len)
    (pid, left) ← read_pid op (pos sz -ℤ pos (topic_len + 2))
    msg ← read left
    call_back topic msg
    acknowledge op pid
    pure (some op)

  unfoldable pub dispatch : ℕ → Bytes → Action H (Option ℕ)
  dispatch rounds [] = fail os_error
  dispatch rounds (op ∷ b) =
      if op == 208
      then (do sz ← read_byte; assert (sz == 0); pure none)
      else if bit_and op 240 == 48
      then receive rounds op
      else pure (some op)

  abbrev pub dispatch_read : ℕ → Option Bytes → Action H (Option ℕ)
  dispatch_read rounds none = pure none
  dispatch_read rounds (some b) = dispatch rounds b

  unfoldable pub wait_msg : ℕ → Action H (Option ℕ)
  wait_msg rounds = do res ← read (pos 1); tells (k.set_blocking true); dispatch_read rounds res

  unfoldable pub check_msg : ℕ → Action H (Option ℕ)
  check_msg rounds = do tells (k.set_blocking false); wait_msg rounds
