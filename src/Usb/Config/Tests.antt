-- ===== src/Usb/Config/Tests.antt =====
-- A configured device, and the theorem on `config` at it.
use micropython_lib.Prelude.{
  ◌≡◌, refl, true, false, [], ◌∷◌, none, some, ok, raise, os_error, length,
}
use micropython_lib.Prelude.Dict.{insert}
use micropython_lib.Usb.Descriptor.{
  extend, pack_into, pack, interface, endpoint, bulk, call, calls, interfaces, endpoints,
}
use micropython_lib.Usb.Config.{
  Builtin, Usbd, Interface, Options, flag, config, device_desc, count_pass, write_pass, assign,
  attributes, max_power,
}

computes : Unit {0}
unfolding extend pack_into pack interface endpoint call calls config device_desc count_pass
    write_pass assign attributes max_power insert
computes = tt

-- A board without drivers of its own.
abbrev no_driver : Builtin
no_driver = record {
  itf_max = 0;
  ep_max = 0;
  str_max = 0;
  desc_dev = 18 ∷ 1 ∷ 0 ∷ 2 ∷ 0 ∷ 0 ∷ 0 ∷ 64 ∷ 85 ∷ 240 ∷ 2 ∷ 152 ∷ 0 ∷ 1 ∷ 1 ∷ 2 ∷ 3 ∷ 1 ∷ [];
  desc_cfg = [];
}

abbrev board : Usbd
board = record { active = false; builtin_default = no_driver; builtin_none = no_driver }

-- An interface with one endpoint into the host and a name.
abbrev sensor : Interface
sensor = record {
  id = 7;
  desc_cfg = λ num ep strs.
      (interfaces num 1 255 0 0 (length strs) ∷ endpoints 129 bulk 64 10 ∷ [], some (83 ∷ []) ∷ []);
  num_itfs = 1;
  num_eps = 1;
}

abbrev options : Options
options = record {
  builtin_driver = flag true;
  manufacturer_str = none;
  product_str = some (80 ∷ []);
  serial_str = none;
  configuration_str = none;
  id_vendor = some 4660;
  id_product = none;
  bcd_device = none;
  device_class = 0;
  device_subclass = 0;
  device_protocol = 0;
  max_power_ma = some 500;
  remote_wakeup = true;
}

two_sensors :
    config board options (sensor ∷ sensor ∷ [])
    ≡ ok (record {
      desc_dev = 18 ∷ 1 ∷ 0 ∷ 2 ∷ 0 ∷ 0 ∷ 0 ∷ 64 ∷ 52 ∷ 18 ∷ 2 ∷ 152 ∷ 0 ∷ 1 ∷ 1 ∷ 2 ∷ 3 ∷ 1 ∷ [];
      desc_cfg =
          9 ∷ 2 ∷ 41 ∷ 0 ∷ 2 ∷ 1 ∷ 0 ∷ 160 ∷ 250 ∷ 9 ∷ 4 ∷ 0 ∷ 0 ∷ 1 ∷ 255 ∷ 0 ∷ 0 ∷ 4 ∷ 7 ∷ 5 ∷ 129
          ∷ 2 ∷ 64 ∷ 0 ∷ 10 ∷ 9 ∷ 4 ∷ 1 ∷ 0 ∷ 1 ∷ 255 ∷ 0 ∷ 0 ∷ 5 ∷ 7 ∷ 5 ∷ 129 ∷ 2 ∷ 64 ∷ 0 ∷ 10
          ∷ [];
      strs = none ∷ none ∷ some (80 ∷ []) ∷ none ∷ some (83 ∷ []) ∷ some (83 ∷ []) ∷ [];
      itfs = (0, 7) ∷ (1, 7) ∷ [];
    })
unfolding computes
two_sensors = refl

refused : config (record board { active = true }) options [] ≡ raise os_error
unfolding computes
refused = refl
