-- ===== src/Usb/Device/Tests.antt =====
-- Runs of the device between driver and host, and its theorems at concrete values.
use micropython_lib.Prelude.{
  ℕ, zero, suc, ◌+◌, Option, ◌⊎◌, ◌≤◌, ◌≡◌, refl, arith, true, false, List, [], ◌∷◌, none, some, ok,
  raise, runtime_error,
}
use micropython_lib.Prelude.Dict.{insert, lookup, contains}
use micropython_lib.Usb.Descriptor.{split_bm_request_type}
use micropython_lib.Usb.Device.{
  Device, new, Recipient, idle, plain, callback, open_itf_cb, find_itf, scan, scan_step, scan_item,
  submit_xfer, xfer_pending, xfer_begin, xfer_end, xfer_cb, interface_submit_xfer, control_xfer_cb,
}
use micropython_lib.Usb.Device.Opens.{AllFree}
use micropython_lib.Usb.Device.Opens.Items.{Item, all_bytes, found, Called, open_itf_cb_lem}
use micropython_lib.Usb.Device.Transfers.{
  IsKnown, Submitted, submit_xfer-xfer_begin, interface_submit_xfer_refused,
}
use micropython_lib.Usb.Device.Trace.{
  Reaches, here, next, opens, submits, idle_world, more, Reaches_one_transfer, Reaches-Submitted,
}
use micropython_lib.Usb.Device.Control.{packet, control_xfer_cb_high_byte}

runs : Unit {0}
unfolding insert lookup contains open_itf_cb find_itf scan scan_step scan_item submit_xfer
    xfer_pending xfer_begin xfer_end xfer_cb interface_submit_xfer control_xfer_cb
    split_bm_request_type
runs = tt

-- An interface with number 0 and two endpoints.
abbrev itf_desc : Item
itf_desc = record { kind = 4; third = 0; rest = 0 ∷ 2 ∷ 255 ∷ 0 ∷ 0 ∷ 0 ∷ [] }

abbrev ep_desc : ℕ → Item
ep_desc a = record { kind = 5; third = a; rest = 2 ∷ 64 ∷ 0 ∷ 10 ∷ [] }

abbrev items : List Item
items = itf_desc ∷ ep_desc 1 ∷ ep_desc 129 ∷ []

abbrev registered : Device
registered = record new { itfs = (0, 7) ∷ [] }

abbrev open_device : Device
open_device = record registered {
  eps = (1, 7) ∷ (129, 7) ∷ [];
  ep_cbs = (1, idle) ∷ (129, idle) ∷ [];
}

abbrev submitted : Device
submitted = record open_device { ep_cbs = (1, idle) ∷ (129, callback 3) ∷ [] }

opens_two : open_itf_cb 3 registered (all_bytes items) ≡ some (ok (open_device, some 7))
unfolding runs
opens_two = refl

takes_one : submit_xfer open_device 5 129 (some 3) ≡ ok submitted
unfolding runs
takes_one = refl

calls_back : (xfer_cb (λ c d. (d, raise runtime_error)) submitted 5 129).1 ≡ raise runtime_error
unfolding runs
calls_back = refl

open_itf_cb_example :
    let s = found registered 7 itf_desc (ep_desc 1 ∷ ep_desc 129 ∷ []) in
    (r : Option ℕ) × (open_itf_cb 3 registered (all_bytes items)
      ≡ some (ok (record registered { eps = s.eps; ep_cbs = s.ep_cbs }, r)))
    × Called registered 7 s r
unfolding lookup
open_itf_cb_example =
    open_itf_cb_lem registered 7 itf_desc (ep_desc 1 ∷ ep_desc 129 ∷ []) 3 refl (omega arith)

no_flight : (desc : List ℕ) (rounds offs : ℕ) → AllFree (λ ep. 0) desc rounds offs
no_flight desc zero offs = tt
no_flight desc (suc rounds) offs = (λ ep h g. refl, λ size h. no_flight desc rounds (offs + size))

configured :
    Reaches (idle_world ((0, 7) ∷ [])) (record { device = open_device; in_flight = λ ep. 0 })
configured = next here (
    opens registered open_device (λ ep. 0) 3 (all_bytes items) (some 7) opens_two
      (no_flight (all_bytes items) 3 0))

in_use :
    Reaches
      (idle_world ((0, 7) ∷ []))
      (record { device = submitted; in_flight = more (λ ep. 0) 129 })
in_use = next configured (submits open_device submitted (λ ep. 0) 5 129 (some 3) takes_one)

Reaches_one_transfer_example :
    (more (λ ep. 0) 129 129 ≤ 1)
    × ((lookup 129 submitted.ep_cbs ≡ none) ⊎ (lookup 129 submitted.ep_cbs ≡ some idle)
        → more (λ ep. 0) 129 129 ≡ 0)
Reaches_one_transfer_example = Reaches_one_transfer ((0, 7) ∷ []) _ 129 in_use

Reaches-Submitted_example : Submitted submitted 5 129 none (submit_xfer submitted 5 129 none)
Reaches-Submitted_example = Reaches-Submitted ((0, 7) ∷ []) _ 5 129 none in_use

submit_xfer-xfer_begin_example :
    let begun = (xfer_begin submitted 5 129).0 in
    (submit_xfer begun 5 129 none ≡ ok (record begun { ep_cbs = insert 129 plain begun.ep_cbs }))
    × (submit_xfer begun 6 129 none ≡ raise runtime_error)
unfolding runs
submit_xfer-xfer_begin_example = submit_xfer-xfer_begin submitted 5 6 129 7 none refl (omega arith)

open_device-IsKnown : IsKnown open_device
unfolding runs
open_device-IsKnown ep c = ground arith

interface_submit_xfer_refused_example :
    let (after, r) = interface_submit_xfer true false open_device 5 129 none in
    (r ≡ raise runtime_error) × (submit_xfer after 6 129 (some 1) ≡ raise runtime_error)
unfolding runs
interface_submit_xfer_refused_example =
    interface_submit_xfer_refused open_device
      (record open_device { ep_cbs = (1, idle) ∷ (129, plain) ∷ [] }) 5 6 129 7 none (some 1)
      open_device-IsKnown refl refl

abbrev answer : Recipient → ℕ → ℕ
answer r i = i

few_itfs : (n : ℕ) → 256 ≤ n → lookup n registered.itfs ≡ none
unfolding lookup
few_itfs n h = ground arith

control_xfer_cb_high_byte_example :
    control_xfer_cb answer registered (packet 33 9 0 2 0 1 []) ≡ raise runtime_error
control_xfer_cb_high_byte_example =
    control_xfer_cb_high_byte answer registered 33 9 0 2 0 1 [] (omega arith) (omega arith)
      (omega arith) (omega arith) (omega arith) few_itfs
