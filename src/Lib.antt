-- ===== src/Lib.antt =====
-- Verification library of micropython-lib, the standard library of MicroPython: Python packages
-- that are installed one by one. Each part here models one package, from its Python source.
--
-- * Datetime (with Datetime/*): python-stdlib/datetime/datetime.py. `Calendar` has the functions
--   on the proleptic Gregorian calendar (`_leap`, `_dim`, `_dbm`, `_o2ymd`, `_date`); `Timedelta`,
--   `Zone`, `Date`, `Clock` and `Moment` the classes timedelta, timezone, date, time and datetime;
--   `Iso` the functions `_iso2d`, `_d2iso`, `_iso2t` and `_t2iso` that read and write ISO 8601.
--   A method is a function on the record of the object's fields and has the method's name, without
--   underscores; `tuple` stands for the properties too. The classes date and datetime keep an
--   ordinal, all durations are whole microseconds.
-- * Usb (with Usb/*): micropython/usb/usb-device/usb/device/core.py. `Buffer` is the class Buffer,
--   with its fields `_b`, `_n` and `_w`; `Queue` and `Calls` say what each call does, `Trace` lets
--   a producer and a consumer call in any order. `Descriptor` is the class of that name, `Config`
--   is `_Device.config` with its two passes over the interfaces, a first one that only counts and a
--   second one that writes. `Device` has the state of the running device with its endpoints and
--   their callbacks, and the callbacks that the lower layer calls; its `Trace` puts submissions,
--   completions and resets in any order. `Midi` is micropython/usb/usb-device-midi/usb/device/midi.py,
--   whose interface queues MIDI events in two buffers.
-- * Lora (with Lora/*): the class BaseModem of micropython/lora/lora/lora/modem.py. `Airtime` has
--   the air time of a packet and the choice of a ramp time, `Modem` the receiving and sending
--   states over a radio. What a driver, the antenna switch and the clock do is the record `Radio`.
-- * Mqtt (with Mqtt/*): the class MQTTClient of micropython/umqtt.simple/umqtt/simple.py over a
--   connection and a callback, the record `Host`. `Sends` has the packets that the client sends.
-- * Tar (with Tar/*): python-stdlib/tarfile/tarfile/__init__.py, the reader of archives, and
--   python-stdlib/tarfile-write/tarfile/write.py, their writer.
--
-- Python's integers are ℤ of Prelude/Int, or ℕ where the code has excluded negative ones; `//` and
-- `%` round down, as in Python. An exception is `raise` with the class of the exception
-- (Prelude/Results). A text is the list of its code points (Prelude/Text). Strings given to `int`
-- are ASCII. What a call wrote before it raises is kept where a module carries the state on, as in
-- Mqtt and Lora; elsewhere a call that raises gives the exception alone.
--
-- The parsers read fields at fixed places, and most loops recur on a number or a list. The loops
-- of Mqtt that wait for the server have no bound in the code: they take a number of rounds and end
-- in an outcome of its own when it is used up, so that what returns is told from what does not.
-- The loops of Tar take a byte in each round at least, and have a round for every byte.
-- Headers of archives on which the model does not follow the code, such as a size with a sign, end in
-- `not_modelled`, which is no exception of the code.
--
-- Not modelled: what asks the board for the time or the local zone, float durations, `strptime`,
-- hashes and `__repr__`, which the modelled operations do not call; the string table and the
-- wrappers of the USB device, and the other classes built on it; the drivers of the LoRa radios;
-- `add` of archives, which asks the file system, and numbers that are wider than their field; the other packages that talk to hardware or to
-- the network; and the copies of modules of CPython.
pub mod Prelude
pub mod Datetime
pub mod Usb
pub mod Lora
pub mod Mqtt
pub mod Tar
