-- ===== src/Usb/Descriptor.antt =====
-- The class `Descriptor` of micropython/usb/usb-device/usb/device/core.py, and what it uses of
-- Python's `struct`: little-endian bytes and words, cut to their width as MicroPython does.
pub mod Written
use micropython_lib.Prelude.{
  ℕ, ◌+◌, ◌/◌, ◌%◌, ◌++◌, max, ltb, if◌then◌else◌, List, [], ◌∷◌, Option, none, some, Result, ok,
  raise, value_error, ◌>>=◌, length, take, drop, bit_and,
}

-- A format character with its value: `B` or `H`.
pub data Field : Type 0 where
  byte : ℕ → Field
  word : ℕ → Field

abbrev pub encode : Field → List ℕ
encode (byte n) = n % 256 ∷ []
encode (word n) = n % 256 ∷ (n / 256) % 256 ∷ []

-- `struct.pack` of a format, whose size is `struct.calcsize`.
abbrev pub packed : List Field → List ℕ
packed [] = []
packed (f ∷ fs) = encode f ++ packed fs

abbrev pub calcsize : List Field → ℕ
calcsize fs = length (packed fs)

pub record Descriptor : Type 0 where
  pub b : Option (List ℕ)
  pub o : ℕ

abbrev pub descriptor : Option (List ℕ) → Descriptor
descriptor b = record { b = b; o = 0 }

-- `b[at : at + len(xs)] = xs`
abbrev pub overwrite : List ℕ → ℕ → List ℕ → List ℕ
overwrite b at xs = take at b ++ (xs ++ drop (at + length xs) b)

-- `struct.pack_into`
store : List ℕ → ℕ → List ℕ → Result (List ℕ)
store b offs xs =
    if ltb (length b) (offs + length xs) then raise value_error else ok (overwrite b offs xs)

-- None and an empty buffer are false.
into : Option (List ℕ) → ℕ → List ℕ → Result (Option (List ℕ))
unfolding store
into none offs xs = ok none
into (some []) offs xs = ok (some [])
into (some (x ∷ b)) offs xs = do r ← store (x ∷ b) offs xs; ok (some r)

unfoldable pub pack_into : Descriptor → List Field → ℕ → Result Descriptor
unfolding into
pack_into d fs offs = do
  b ← into d.b offs (packed fs)
  ok (record { b = b; o = max d.o (offs + calcsize fs) })

unfoldable pub pack : Descriptor → List Field → Result Descriptor
pack d fs = pack_into d fs d.o

extended : Option (List ℕ) → ℕ → List ℕ → Option (List ℕ)
extended none o xs = none
extended (some []) o xs = some []
extended (some (x ∷ b)) o xs = some (overwrite (x ∷ b) o xs)

unfoldable pub extend : Descriptor → List ℕ → Descriptor
unfolding extended
extend d xs = record { b = extended d.b d.o xs; o = d.o + length xs }

-- The fields of a standard Interface descriptor.
abbrev pub interface_fields : ℕ → ℕ → ℕ → ℕ → ℕ → ℕ → List Field
interface_fields num eps class subclass protocol name =
    byte 9
    ∷ byte 4
    ∷ byte num
    ∷ byte 0
    ∷ byte eps
    ∷ byte class
    ∷ byte subclass
    ∷ byte protocol
    ∷ byte name
    ∷ []

unfoldable pub interface : Descriptor → ℕ → ℕ → ℕ → ℕ → ℕ → ℕ → Result Descriptor
interface d num eps class subclass protocol name =
    pack d (interface_fields num eps class subclass protocol name)

-- `bmAttributes`, a number or one of three names.
pub data Attributes : Type 0 where
  control bulk interrupt : Attributes
  bits : ℕ → Attributes

abbrev pub attribute_bits : Attributes → ℕ
attribute_bits control = 0
attribute_bits bulk = 2
attribute_bits interrupt = 3
attribute_bits (bits n) = n

abbrev pub endpoint_fields : ℕ → Attributes → ℕ → ℕ → List Field
endpoint_fields address attributes size interval =
    byte 7
    ∷ byte 5
    ∷ byte address
    ∷ byte (attribute_bits attributes)
    ∷ word size
    ∷ byte interval
    ∷ []

unfoldable pub endpoint : Descriptor → ℕ → Attributes → ℕ → ℕ → Result Descriptor
endpoint d address attributes size interval =
    pack d (endpoint_fields address attributes size interval)

abbrev pub interface_assoc_fields : ℕ → ℕ → ℕ → ℕ → ℕ → ℕ → List Field
interface_assoc_fields first count class subclass protocol name =
    byte 8
    ∷ byte 11
    ∷ byte first
    ∷ byte count
    ∷ byte class
    ∷ byte subclass
    ∷ byte protocol
    ∷ byte name
    ∷ []

unfoldable pub interface_assoc : Descriptor → ℕ → ℕ → ℕ → ℕ → ℕ → ℕ → Result Descriptor
interface_assoc d first count class subclass protocol name =
    pack d (interface_assoc_fields first count class subclass protocol name)

-- Recipient, type and direction of a control request.
unfoldable pub split_bm_request_type : ℕ → ℕ × ℕ × ℕ
split_bm_request_type r = (bit_and r 31, bit_and (r / 32) 3, bit_and (r / 128) 1)

-- A call that a device class makes on the descriptor it is given.
pub data Call : Type 0 where
  packs : List Field → Call
  extends : List ℕ → Call
  interfaces : ℕ → ℕ → ℕ → ℕ → ℕ → ℕ → Call
  endpoints : ℕ → Attributes → ℕ → ℕ → Call
  associates : ℕ → ℕ → ℕ → ℕ → ℕ → ℕ → Call

unfoldable pub call : Call → Descriptor → Result Descriptor
call (packs fs) d = pack d fs
call (extends xs) d = ok (extend d xs)
call (interfaces a b c e f g) d = interface d a b c e f g
call (endpoints a b c e) d = endpoint d a b c e
call (associates a b c e f g) d = interface_assoc d a b c e f g

unfoldable pub calls : List Call → Descriptor → Result Descriptor
calls [] d = ok d
calls (c ∷ cs) d = do e ← call c d; calls cs e
