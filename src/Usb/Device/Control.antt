-- ===== src/Usb/Device/Control.antt =====
-- Control requests: whose reply `_control_xfer_cb` gives.
use micropython_lib.Prelude.{
  ℕ, ◌+◌, ◌*◌, ◌%◌, ◌≤◌, ◌<◌, ◌≡◌, ◌≢◌, refl, arith, true, ◌==◌, List, ◌∷◌, none, raise,
  runtime_error, bit_and, upto, upto_sound, ==_iff,
}
use micropython_lib.Prelude.Dict.{lookup}
use micropython_lib.Usb.Descriptor.{split_bm_request_type}
use micropython_lib.Usb.Device.{Device, Recipient, control_xfer_cb}

word_table : upto (λ x. bit_and x 65535 == x) 65536 ≡ true
unfolding upto
word_table = refl

-- The mask of `wIndex` keeps a word.
masked : (x : ℕ) → x < 65536 → bit_and x 65535 ≡ x
masked x h = (==_iff _ x).0 (upto_sound (λ x. bit_and x 65535 == x) 65536 x word_table h)

recipient_table : upto (λ x. bit_and x 31 == x % 32) 256 ≡ true
unfolding upto
recipient_table = refl

recipient : (k : ℕ) → k < 256 → bit_and k 31 ≡ k % 32
recipient k h =
    (==_iff _ (k % 32)).0 (upto_sound (λ x. bit_and x 31 == x % 32) 256 k recipient_table h)

-- The request packet up to `wIndex`.
abbrev pub packet : ℕ → ℕ → ℕ → ℕ → ℕ → ℕ → List ℕ → List ℕ
packet kind request value_low value_high low high rest =
    kind ∷ request ∷ value_low ∷ value_high ∷ low ∷ high ∷ rest

-- A request to the device or to an interface whose `wIndex` has a high byte other than zero raises
-- RuntimeError, also where its low byte is the number of an interface, if no interface has a number
-- above 255.
pub control_xfer_cb_high_byte :
    {R : Type 0} (reply : Recipient → ℕ → R) (d : Device) (kind q v w low high : ℕ) (rest : List ℕ)
    → kind < 256
    → low < 256
    → high < 256
    → kind % 32 ≤ 1
    → high ≢ 0
    → ((n : ℕ) → 256 ≤ n → lookup n d.itfs ≡ none)
    → control_xfer_cb reply d (packet kind q v w low high rest) ≡ raise runtime_error
unfolding control_xfer_cb split_bm_request_type
control_xfer_cb_high_byte reply d kind q v w low high rest hk hl hh r ne none_above =
    rw
      (
        masked (low + high * 256) (omega arith),
        recipient kind hk,
        none_above (low + high * 256) (omega arith),
      )
      (ground arith)
