-- ===== src/Usb.antt =====
-- The USB device package micropython/usb, its core module usb/device/core.py: the buffer of a device
-- class, the writer of descriptors, the configuration of a device and its transfers.
pub mod Buffer
pub mod Descriptor
pub mod Config
pub mod Device
pub mod Midi
mod Tests
