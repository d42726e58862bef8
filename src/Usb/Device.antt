-- ===== src/Usb/Device.antt =====
-- `_Device` of micropython/usb/usb-device/usb/device/core.py at run time: the callbacks of the lower
-- layer, the transfers on the endpoints, and the methods of `Interface` that hand over to them. An
-- interface object is its number in the table, a callback function likewise; threads are the numbers
-- that `get_ident` returns. What a driver overrides is an argument. What a call that raises in the
-- middle of a loop has already written is not kept.
pub mod Opens
pub mod Transfers
pub mod Trace
pub mod Control
mod Tests
use micropython_lib.Prelude.{
  ℕ, zero, suc, ◌+◌, ◌*◌, ◌/◌, max, Bool, true, false, not, ltb, ◌==◌, ◌&&◌, ◌||◌, if◌then◌else◌,
  List, [], ◌∷◌, map, Option, none, some, Error, Result, ok, raise, value_error, runtime_error,
  attribute_error, key_error, index_error, ◌>>=◌, length, get_elem?, bit_and,
}
use micropython_lib.Prelude.Dict.{Dict, lookup, insert, contains}
use micropython_lib.Usb.Descriptor.{split_bm_request_type}

-- A value of `_ep_cbs`: None, True, or a callback.
pub data Transfer : Type 0 where
  idle plain : Transfer
  callback : ℕ → Transfer

pub record Device : Type 0 where
  pub itfs : Dict ℕ
  pub eps : Dict ℕ
  pub ep_cbs : Dict Transfer
  pub cb_thread : Option ℕ
  pub cb_ep : Option ℕ

abbrev pub new : Device
new = record { itfs = []; eps = []; ep_cbs = []; cb_thread = none; cb_ep = none }

abbrev pub or_raise {ℓ} : {A : Type ℓ} → Option A → Error → Result A
or_raise none e = raise e
or_raise (some a) e = ok a

-- The state of the loop of `_open_itf_cb`.
pub record Scan : Type 0 where
  pub offs : ℕ
  pub max_itf : ℕ
  pub eps : Dict ℕ
  pub ep_cbs : Dict Transfer

-- What a round does with a descriptor of type `dt` and length `dl`, whose third byte is `third`.
unfoldable pub scan_item : ℕ → ℕ → Option ℕ → ℕ → Scan → Result Scan
scan_item dl dt third itf s =
    if dt == 5
    then (do
      ep_addr ← or_raise third index_error
      ok (record {
        offs = s.offs + dl;
        max_itf = s.max_itf;
        eps = insert ep_addr itf s.eps;
        ep_cbs = insert ep_addr idle s.ep_cbs;
      }))
    else if dt == 4
    then (do
      num ← or_raise third index_error
      ok (record s { offs = s.offs + dl; max_itf = max s.max_itf num }))
    else ok (record s { offs = s.offs + dl })

unfoldable pub scan_step : List ℕ → ℕ → Scan → Result Scan
scan_step desc itf s = do
  dl ← or_raise (get_elem? desc s.offs) index_error
  dt ← or_raise (get_elem? desc (s.offs + 1)) index_error
  scan_item dl dt (get_elem? desc (s.offs + 2)) itf s

-- The loop, `none` where the rounds given are not enough.
unfoldable pub scan : ℕ → List ℕ → ℕ → Scan → Option (Result Scan)
scan zero desc itf s = if ltb s.offs (length desc) then none else some (ok s)
scan (suc rounds) desc itf s =
    if ltb s.offs (length desc)
    then elim (scan_step desc itf s) [ raise e ↦ some (raise e) | ok t ↦ scan rounds desc itf t ]
    else some (ok s)

abbrev pub same_id : Option ℕ → ℕ → Bool
same_id none itf = false
same_id (some other) itf = other == itf

-- The end of `_open_itf_cb`: the new state, and the interface whose `on_open` is called.
abbrev pub opened : Device → ℕ → Scan → Device × Option ℕ
opened d itf s = (
  record d { eps = s.eps; ep_cbs = s.ep_cbs },
  if same_id (lookup (s.max_itf + 1) d.itfs) itf then none else some itf,
)

abbrev pub finish_open : Device → ℕ → Option (Result Scan) → Option (Result (Device × Option ℕ))
finish_open d itf none = none
finish_open d itf (some (raise e)) = some (raise e)
finish_open d itf (some (ok s)) = some (ok (opened d itf s))

-- The number in `desc[2]` and its interface.
unfoldable pub find_itf : Device → List ℕ → Result (ℕ × ℕ)
find_itf d desc = do
  num ← or_raise (get_elem? desc 2) index_error
  itf ← or_raise (lookup num d.itfs) key_error
  ok (num, itf)

unfoldable pub open_itf_cb : ℕ → Device → List ℕ → Option (Result (Device × Option ℕ))
open_itf_cb rounds d desc = elim (find_itf d desc) [
  | raise e ↦ some (raise e)
  | ok f ↦
      finish_open d f.1
        (scan rounds desc f.1 (record { offs = 0; max_itf = f.0; eps = d.eps; ep_cbs = d.ep_cbs }))
]

-- `_reset_cb`, with the interfaces whose `on_reset` is called, one call for each number.
unfoldable pub reset_cb : Device → Device × List ℕ
reset_cb d = (record d { eps = []; ep_cbs = [] }, map (λ (e : ℕ × ℕ). e.1) d.itfs)

abbrev pub is_busy : Transfer → Bool
is_busy idle = false
is_busy plain = true
is_busy (callback c) = true

abbrev is_ep : Option ℕ → ℕ → Bool
is_ep none n = false
is_ep (some m) n = m == n

unfoldable pub xfer_pending : Device → ℕ → ℕ → Result Bool
xfer_pending d thread ep_addr = do
  t ← or_raise (lookup ep_addr d.ep_cbs) key_error
  ok (is_busy t || (is_ep d.cb_ep ep_addr && not (is_ep d.cb_thread thread)))

abbrev done_cb : Option ℕ → Transfer
done_cb none = plain
done_cb (some c) = callback c

-- `_submit_xfer` up to the call of the lower layer, which gets the transfer when this returns.
unfoldable pub submit_xfer : Device → ℕ → ℕ → Option ℕ → Result Device
submit_xfer d thread ep_addr cb = if not (contains ep_addr d.eps) then raise value_error else do
  pending ← xfer_pending d thread ep_addr
  if pending
      then raise runtime_error
      else ok (record d { ep_cbs = insert ep_addr (done_cb cb) d.ep_cbs })

-- `_xfer_cb` up to the callback, with what `_ep_cbs` held, and its `finally`.
unfoldable pub xfer_begin : Device → ℕ → ℕ → Device × Option Transfer
xfer_begin d thread ep_addr = (
  record d { cb_thread = some thread; cb_ep = some ep_addr; ep_cbs = insert ep_addr idle d.ep_cbs },
  lookup ep_addr d.ep_cbs,
)

unfoldable pub xfer_end : Device → Device
xfer_end d = record d { cb_ep = none }

-- `_xfer_cb`; `run` calls a callback function, which may change the device and may raise.
unfoldable pub xfer_cb :
    (ℕ → Device → Device × Result (Unit {0})) → Device → ℕ → ℕ → Device × Result (Unit {0})
xfer_cb run d thread ep_addr =
    let (begun, cb) = xfer_begin d thread ep_addr in
    elim cb [
      | some (callback c) ↦ let (after, r) = run c begun in (xfer_end after, r)
      | _ ↦ (xfer_end begun, ok tt)
    ]

-- Who a control request is for.
pub data Recipient : Type 0 where
  device interface endpoint : Recipient

-- `_control_xfer_cb`; `reply` stands for the three methods of an interface.
unfoldable pub control_xfer_cb : {R : Type 0} → (Recipient → ℕ → R) → Device → List ℕ → Result R
control_xfer_cb reply d request = do
  low ← or_raise (get_elem? request 4) index_error
  high ← or_raise (get_elem? request 5) index_error
  kind ← or_raise (get_elem? request 0) index_error
  let index = bit_and (low + high * 256) 65535
  let recipient = (split_bm_request_type kind).0
  if recipient == 0
      then (do i ← or_raise (lookup index d.itfs) runtime_error; ok (reply device i))
      else if recipient == 1
      then (do i ← or_raise (lookup index d.itfs) runtime_error; ok (reply interface i))
      else if recipient == 2
      then (do i ← or_raise (lookup index d.eps) runtime_error; ok (reply endpoint i))
      else raise runtime_error

-- `Interface.submit_xfer`: `is_open` is `_open`, `accepted` what the lower layer returns. The device is
-- changed also where a refusal of the lower layer is raised.
unfoldable pub interface_submit_xfer :
    Bool → Bool → Device → ℕ → ℕ → Option ℕ → Device × Result (Unit {0})
interface_submit_xfer is_open accepted d thread ep_addr cb =
    if not is_open then (d, raise runtime_error) else elim (submit_xfer d thread ep_addr cb) [
      | raise e ↦ (d, raise e)
      | ok t ↦ (t, if accepted then ok tt else raise runtime_error)
    ]

-- `Interface.stall`; no class of the package has the attribute `_eps` that it reads.
unfoldable pub stall : Bool → Result (Unit {0})
stall is_open = if not is_open then raise runtime_error else raise attribute_error
