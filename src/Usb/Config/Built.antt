-- ===== src/Usb/Config/Built.antt =====
-- The configuration descriptor that `config` builds.
use micropython_lib.Prelude.{
  ℕ, ◌+◌, ◌≤◌, ◌≡◌, ◌++◌, List, none, ok, length, drop, if◌then◌else◌, ◌/◌, ◌%◌, [], ◌∷◌, Option,
  some, ◌==◌, get_elem?,
}
use micropython_lib.Prelude.Text.{Text}
use micropython_lib.Prelude.Dict.{lookup}
use micropython_lib.Usb.Descriptor.{Descriptor}
use micropython_lib.Usb.Config.{
  Interface, Usbd, Options, Setup, config, builtin_of, Strings, max_power, initial_cfg, start,
}
use micropython_lib.Usb.Config.Tables.{owner}
use micropython_lib.Usb.Config.Passes.{bodies, numbers}

-- The header: its length and type, the length of the whole with its low byte first, the number of
-- interfaces, configuration 1 with its string, the attributes and the power.
abbrev pub header_bytes : ℕ → ℕ → ℕ → ℕ → ℕ → List ℕ
header_bytes total itfs text bits power =
    9
    ∷ 2
    ∷ total % 256
    ∷ total / 256 % 256
    ∷ itfs % 256
    ∷ 1
    ∷ text % 256
    ∷ bits % 256
    ∷ power % 256
    ∷ []

-- Bit 7 is always set, bit 6 is for a device with a power supply of its own, bit 5 for remote wakeup.
abbrev pub attribute_byte : Options → ℕ
attribute_byte o =
    128
    + (elim o.max_power_ma [ none ↦ 64 | some ma ↦ (if ma == 0 then 64 else 0) ])
    + (if o.remote_wakeup then 32 else 0)

-- The number of the configuration's string, 0 for none.
abbrev pub Names : Option Text → ℕ → Strings → Type 0
Names none text strs = text ≡ 0
Names (some []) text strs = text ≡ 0
Names (some (c ∷ s)) text strs = get_elem? strs text ≡ some (some (c ∷ s))

-- What `config` makes: the device descriptor, and the configuration descriptor with the
-- header in place of the first 9 bytes of the built-in one.
pub record Configured (u : Usbd) (o : Options) (is : List Interface) : Type 0 where
  pub setup : Setup
  pub text : ℕ
  pub returns : config u o is ≡ ok setup
  pub contents :
      let d = builtin_of u o.builtin_driver in
      setup.desc_cfg
      ≡ header_bytes
          (length setup.desc_cfg)
          (d.itf_max + numbers is)
          text
          (attribute_byte o)
          (max_power u o)
        ++ (drop 9 (initial_cfg d) ++ bodies is (start o d 0))
  pub named : Names o.configuration_str text setup.strs
  pub owners :
      (k : ℕ)
      → (builtin_of u o.builtin_driver).itf_max ≤ k
      → lookup k setup.itfs ≡ owner is (builtin_of u o.builtin_driver).itf_max k
