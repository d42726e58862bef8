-- ===== src/Mqtt/Tests.antt =====
-- Runs of the MQTT client over a connection held in memory, and its theorems at concrete values.
use micropython_lib.Prelude.{
  ◌+◌, ◌≡◌, ◌≢◌, refl, ap, ◌∙◌, arith, true, false, [], ◌∷◌, ◌++◌, none, some, length, take, drop,
}
use micropython_lib.Prelude.Int.{pos, negsuc, ◌-ℤ◌}
use micropython_lib.Prelude.Slices.{take-append_left, take_all, drop-append_all}
use micropython_lib.Mqtt.{
  Bytes, Host, Client, State, done, store_length, user_size, will_size, connect_flags, write, read,
  send_str, read_byte, read_word, recv_len, read_pid, call_back, acknowledge, receive, dispatch,
  wait_msg,
}
use micropython_lib.Mqtt.Sends.{
  send_will, send_user, read_connack, connect, send_header, send_pid, next_pid, settle, await_ack,
  await_answer, publish, subscribe,
}
use micropython_lib.Mqtt.Calls.{Traffic, IsStream, At, Returns}
use micropython_lib.Mqtt.Messages.{packet, Delivered}
use micropython_lib.Mqtt.Delivery.{Wrote, Acknowledged, publish-Delivered, publish-Acknowledged}
use micropython_lib.Mqtt.Overflow.{ReadsBytes, publish_never_returns}
use micropython_lib.Mqtt.Connecting.{Connected, connect_body, connect-Connected}

runs : Unit {0}
unfolding store_length user_size will_size connect_flags write read send_str read_byte read_word
    recv_len read_pid call_back acknowledge receive dispatch wait_msg send_will send_user
    read_connack connect send_header send_pid next_pid settle await_ack await_answer publish
    subscribe ◌-ℤ◌
runs = tt

-- The bytes that have come are there at once; a read beyond them gives what is left.
abbrev wire : Host Traffic
wire = record {
  open_socket = λ h. h;
  read = λ n h. elim n [
    | pos m ↦ (some (take m h.incoming), record h { incoming = drop m h.incoming })
    | negsuc m ↦ (some h.incoming, record h { incoming = [] })
  ];
  write = λ xs h. record h { outgoing = h.outgoing ++ xs };
  set_blocking = λ b h. h;
  close = λ h. h;
  callback = λ topic msg h. elim topic [
    | none ↦ h
    | some a ↦ elim msg [ none ↦ h | some b ↦ record h { delivered = h.delivered ++ (a, b) ∷ [] } ]
  ];
}

wire-IsStream : IsStream wire (λ h. h)
wire-IsStream = record {
  opens = λ h. refl;
  reads = λ xs ys h e. (
    ap some (
        ap (take (length xs)) e
        ∙ take-append_left xs ys (length xs) (omega arith)
        ∙ take_all xs (length xs) (omega arith)),
    ap (λ zs. record h { incoming = zs }) (ap (drop (length xs)) e ∙ drop-append_all xs ys),
  );
  writes = λ xs h. refl;
  blocks = λ b h. refl;
  calls = λ topic msg h. refl;
}

abbrev client : Client
client = record {
  client_id = 99 ∷ [];
  user = none;
  pswd = none;
  keepalive = 60;
  lw_topic = none;
  lw_msg = [];
  lw_qos = 0;
  lw_retain = false;
  pid = 6;
  has_cb = true;
}

abbrev with_input : Bytes → State Traffic
with_input xs = record {
  client = client;
  host = record { incoming = xs; outgoing = []; delivered = [] };
}

here : (xs : Bytes) → At (λ h. h) client (with_input xs).host (with_input xs)
here xs = record { client = refl; traffic = refl }

subscribed :
    (subscribe wire 2 (97 ∷ 98 ∷ []) 0 (with_input (144 ∷ 3 ∷ 0 ∷ 7 ∷ 0 ∷ []))).1.host.outgoing
    ≡ 130 ∷ 7 ∷ 0 ∷ 7 ∷ 0 ∷ 2 ∷ 97 ∷ 98 ∷ 0 ∷ []
unfolding runs
subscribed = refl

connected : connect wire true (with_input (32 ∷ 2 ∷ 1 ∷ 0 ∷ [])) ≡ (
  done 1,
  record {
    client = client;
    host = record {
      incoming = [];
      outgoing = 16 ∷ 13 ∷ 0 ∷ 4 ∷ 77 ∷ 81 ∷ 84 ∷ 84 ∷ 4 ∷ 2 ∷ 0 ∷ 60 ∷ 0 ∷ 1 ∷ 99 ∷ [];
      delivered = [];
    };
  },
)
unfolding runs
connected = refl

abbrev hello : Bytes
hello = packet false none (97 ∷ []) (104 ∷ 105 ∷ [])

abbrev hello_7 : Bytes
hello_7 = packet false (some 7) (97 ∷ []) (104 ∷ 105 ∷ [])

publish-Delivered_example :
    Returns
      (λ _. Wrote wire (λ h. h) wire-IsStream client (with_input []).host hello)
      (publish wire 0 (97 ∷ []) (104 ∷ 105 ∷ []) false 0 (with_input []))
    × Returns
        (Delivered wire
          (λ h. h)
          wire-IsStream
          client
          (with_input hello).host
          false
          none
          (97 ∷ [])
          (104 ∷ 105 ∷ [])
          [])
        (wait_msg wire 3 (with_input hello))
publish-Delivered_example =
    publish-Delivered wire (λ h. h) wire-IsStream client client (with_input []).host
      (with_input hello).host false (97 ∷ []) (104 ∷ 105 ∷ []) [] 0 0 (with_input [])
      (with_input hello) (omega arith) (omega arith) refl refl (here []) (here hello)

publish-Acknowledged_example :
    Returns
      (Delivered wire
        (λ h. h)
        wire-IsStream
        client
        (with_input hello_7).host
        false
        (some (6 + 1))
        (97 ∷ [])
        (104 ∷ 105 ∷ [])
        [])
      (wait_msg wire 3 (with_input hello_7))
    × Returns
        (λ _.
          Acknowledged wire
            (λ h. h)
            wire-IsStream
            client
            (with_input (64 ∷ 2 ∷ 0 ∷ 7 ∷ [])).host
            hello_7
            [])
        (publish wire 1 (97 ∷ []) (104 ∷ 105 ∷ []) false 1 (with_input (64 ∷ 2 ∷ 0 ∷ 7 ∷ [])))
publish-Acknowledged_example =
    publish-Acknowledged wire (λ h. h) wire-IsStream client client
      (with_input (64 ∷ 2 ∷ 0 ∷ 7 ∷ [])).host (with_input hello_7).host false (97 ∷ [])
      (104 ∷ 105 ∷ []) [] 0 0 (with_input (64 ∷ 2 ∷ 0 ∷ 7 ∷ [])) (with_input hello_7) (omega arith)
      (omega arith) (omega arith) refl refl refl refl (here (64 ∷ 2 ∷ 0 ∷ 7 ∷ [])) (here hello_7)

connect-Connected_example :
    Returns
      (Connected wire
        (λ h. h)
        wire-IsStream
        client
        (with_input (32 ∷ 2 ∷ 1 ∷ 0 ∷ [])).host
        true
        1
        []
        refl
        (connect_body client true))
      (connect wire true (with_input (32 ∷ 2 ∷ 1 ∷ 0 ∷ [])))
unfolding user_size
connect-Connected_example =
    connect-Connected wire (λ h. h) wire-IsStream client (with_input (32 ∷ 2 ∷ 1 ∷ 0 ∷ [])).host
      true 1 [] refl 0 (with_input (32 ∷ 2 ∷ 1 ∷ 0 ∷ [])) refl (omega arith) (omega arith)
      (omega arith) (here (32 ∷ 2 ∷ 1 ∷ 0 ∷ []))

-- A server each read from which gives the same two bytes.
abbrev repeating : Host Traffic
repeating = record wire {
  read = λ n h. elim n [ pos m ↦ (some (64 ∷ 2 ∷ []), h) | negsuc m ↦ (some [], h) ];
}

abbrev spent : State Traffic
spent = record {
  client = record client { pid = 65535 };
  host = record { incoming = []; outgoing = []; delivered = [] };
}

repeating-ReadsBytes : ReadsBytes repeating
repeating-ReadsBytes (pos n) h = (omega arith, (omega arith, tt))
repeating-ReadsBytes (negsuc n) h = tt

publish_never_returns_example : (publish repeating 9 [] (1 ∷ []) true 1 spent).0 ≢ done tt
publish_never_returns_example =
    publish_never_returns repeating repeating-ReadsBytes 9 [] (1 ∷ []) true spent (omega arith)
