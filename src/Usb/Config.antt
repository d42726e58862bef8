-- ===== src/Usb/Config.antt =====
-- `_Device.config` of micropython/usb/usb-device/usb/device/core.py: the device descriptor, the two
-- passes over the interfaces that make the configuration descriptor, the strings, and the table of
-- the interfaces by number. The low-level device is the record `Usbd` of what the code reads of it;
-- a missing `desc_cfg` of a driver is an empty one. An interface is a record of what its class
-- overrides: the calls it makes on the descriptor and the strings it appends.
pub mod Tables
pub mod Passes
pub mod Built
mod Tests
use micropython_lib.Prelude.{
  ℕ, zero, suc, ◌+◌, ◌-◌, ◌*◌, ◌/◌, ◌++◌, max, Bool, true, false, not, ltb, ◌==◌, if◌then◌else◌,
  List, [], ◌∷◌, Option, none, some, Result, ok, raise, value_error, os_error, ◌>>=◌, length,
  get_elem?, get_or, replicate, bit_or,
}
use micropython_lib.Prelude.Text.{Text}
use micropython_lib.Prelude.Dict.{Dict, insert}
use micropython_lib.Usb.Descriptor.{
  Descriptor, descriptor, Field, byte, word, packed, Call, calls, extend, pack_into,
}

abbrev pub Strings : Type 0
Strings = List (Option Text)

-- What `machine.USBDevice` says of one of its built-in drivers.
pub record Builtin : Type 0 where
  pub itf_max : ℕ
  pub ep_max : ℕ
  pub str_max : ℕ
  pub desc_dev : List ℕ
  pub desc_cfg : List ℕ

pub record Usbd : Type 0 where
  pub active : Bool
  pub builtin_default : Builtin
  pub builtin_none : Builtin

-- `desc_cfg(desc, itf_num, ep_num, strs)`: the calls on `desc`, and the strings appended to `strs`.
pub record Interface : Type 0 where
  pub id : ℕ
  pub desc_cfg : ℕ → ℕ → Strings → List Call × Strings
  pub num_itfs : ℕ
  pub num_eps : ℕ

pub data Driver : Type 0 where
  flag : Bool → Driver
  driver : Builtin → Driver

pub record Options : Type 0 where
  pub builtin_driver : Driver
  pub manufacturer_str : Option Text
  pub product_str : Option Text
  pub serial_str : Option Text
  pub configuration_str : Option Text
  pub id_vendor : Option ℕ
  pub id_product : Option ℕ
  pub bcd_device : Option ℕ
  pub device_class : ℕ
  pub device_subclass : ℕ
  pub device_protocol : ℕ
  pub max_power_ma : Option ℕ
  pub remote_wakeup : Bool

abbrev pub builtin_of : Usbd → Driver → Builtin
builtin_of u (flag true) = u.builtin_default
builtin_of u (flag false) = u.builtin_none
builtin_of u (driver d) = d

abbrev pub maybe_set : Option ℕ → ℕ → ℕ
maybe_set (some v) kept = v
maybe_set none kept = kept

abbrev word_at : List ℕ → ℕ → ℕ
word_at f i = get_or f i 0 + 256 * get_or f (suc i) 0

-- The device descriptor, from the 18 bytes of the built-in one; a word has its low byte first.
abbrev pub device_fields : Options → List ℕ → List Field
device_fields o f =
    byte (get_or f 0 0)
    ∷ byte (get_or f 1 0)
    ∷ word (word_at f 2)
    ∷ byte o.device_class
    ∷ byte o.device_subclass
    ∷ byte o.device_protocol
    ∷ byte (get_or f 7 0)
    ∷ word (maybe_set o.id_vendor (word_at f 8))
    ∷ word (maybe_set o.id_product (word_at f 10))
    ∷ word (maybe_set o.bcd_device (word_at f 12))
    ∷ byte 1
    ∷ byte 2
    ∷ byte 3
    ∷ byte 1
    ∷ []

unfoldable pub device_desc : Options → List ℕ → Result (List ℕ)
device_desc o f = if ltb (length f) 18 then raise value_error else ok (packed (device_fields o f))

abbrev pub initial_cfg : Builtin → List ℕ
initial_cfg d = elim d.desc_cfg [ [] ↦ replicate 9 0 | x ∷ b ↦ x ∷ b ]

-- The dummy calls that only count.
unfoldable pub count_pass : List Interface → Descriptor → Result Descriptor
count_pass [] desc = ok desc
count_pass (i ∷ is) desc = do e ← calls (i.desc_cfg 0 0 []).0 desc; count_pass is e

-- The numbers `num`, `num + 1`, ... of one interface object.
unfoldable pub assign : ℕ → ℕ → ℕ → Dict ℕ → Dict ℕ
assign zero num id itfs = itfs
assign (suc count) num id itfs = assign count (suc num) id (insert num id itfs)

pub record Progress : Type 0 where
  pub desc : Descriptor
  pub itf_num : ℕ
  pub ep_num : ℕ
  pub strs : Strings
  pub itfs : Dict ℕ

abbrev pub step_pass : Interface → Progress → Descriptor → Progress
step_pass i p desc = record {
  desc = desc;
  itf_num = p.itf_num + i.num_itfs;
  ep_num = p.ep_num + i.num_eps;
  strs = p.strs ++ (i.desc_cfg p.itf_num p.ep_num p.strs).1;
  itfs = assign i.num_itfs p.itf_num i.id p.itfs;
}

unfoldable pub write_pass : List Interface → Progress → Result Progress
write_pass [] p = ok p
write_pass (i ∷ is) p = do
  desc ← calls (i.desc_cfg p.itf_num p.ep_num p.strs).0 p.desc
  write_pass is (step_pass i p desc)

abbrev pub is_given : Option ℕ → Bool
is_given none = false
is_given (some n) = not (n == 0)

unfoldable pub attributes : Options → ℕ
attributes o =
    bit_or (bit_or 128 (if is_given o.max_power_ma then 0 else 64))
      (if o.remote_wakeup then 32 else 0)

unfoldable pub max_power : Usbd → Options → ℕ
max_power u o = elim o.max_power_ma [
  | some ma ↦ ma / 2
  | none ↦ elim (get_elem? u.builtin_default.desc_cfg 8) [ some v ↦ v | none ↦ 125 ]
]

-- `iConfiguration`, and the strings with the configuration's.
abbrev pub configuration : Option Text → Strings → ℕ × Strings
configuration none strs = (0, strs)
configuration (some []) strs = (0, strs)
configuration (some (c ∷ s)) strs = (length strs, strs ++ some (c ∷ s) ∷ [])

abbrev pub buffer_of : Descriptor → List ℕ
buffer_of d = elim d.b [ none ↦ [] | some b ↦ b ]

-- What `_usbd.config` is given, and the new `_itfs`.
pub record Setup : Type 0 where
  pub desc_dev : List ℕ
  pub desc_cfg : List ℕ
  pub strs : Strings
  pub itfs : Dict ℕ

abbrev pub header : Usbd → Options → Progress → List Field
header u o p =
    byte 9
    ∷ byte 2
    ∷ word (length (buffer_of p.desc))
    ∷ byte p.itf_num
    ∷ byte 1
    ∷ byte (configuration o.configuration_str p.strs).0
    ∷ byte (attributes o)
    ∷ byte (max_power u o)
    ∷ []

abbrev pub first_strs : Options → Builtin → Strings
first_strs o d =
    let strs = none ∷ o.manufacturer_str ∷ o.product_str ∷ o.serial_str ∷ [] in
    strs ++ replicate (d.str_max - 4) none

abbrev pub start : Options → Builtin → ℕ → Progress
start o d size = record {
  desc = extend (descriptor (some (replicate size 0))) (initial_cfg d);
  itf_num = d.itf_max;
  ep_num = max d.ep_max 1;
  strs = first_strs o d;
  itfs = [];
}

unfoldable pub config : Usbd → Options → List Interface → Result Setup
config u o itfs =
    if u.active
    then raise os_error
    else let d = builtin_of u o.builtin_driver in
      do
        dev ← device_desc o d.desc_dev
        counted ← count_pass itfs (extend (descriptor none) (initial_cfg d))
        p ← write_pass itfs (start o d counted.o)
        done ← pack_into p.desc (header u o p) 0
        ok (record {
          desc_dev = dev;
          desc_cfg = buffer_of done;
          strs = (configuration o.configuration_str p.strs).1;
          itfs = p.itfs;
        })
