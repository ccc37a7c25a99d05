-- ===== src/Device.antt =====
-- cuda/device.go, cuda/version.go and `CanAccessPeer` of cuda/peer.go: the devices. Their
-- calls run on the calling thread, under the lock of the package, and need the driver that `Init` loaded.
pub mod Text
pub mod Ordinal
mod Tests
use gocudrv.Base.{
  ℕ, Bool, true, false, ◌||◌, Option, none, some, List, [], ◌∷◌, if◌then◌else◌, Bytes, ℤ, pos,
  negsuc, ltb_ℤ, leb_ℤ, to_uint,
}
use gocudrv.Driver.Errors.{Err, sentinel, not_initialized, nil_device, invalid_ordinal, Symbol}
use gocudrv.Driver.{Driver, Call, Cmd, ◌>>=◌, pure, fail}
use gocudrv.Driver.Calls.{invoke}
use gocudrv.Driver.Queries.{
  device_count, get_device, device_total_mem, device_attribute, device_can_access_peer,
  driver_version,
}
use gocudrv.Module.{trim_null}
use gocudrv.Device.Text.{uuid_text}

-- `Device`
pub record Device : Type 0 where
  pub ordinal : ℤ
  pub handle : ℕ

-- `DeviceAttributeComputeCapabilityMajor` and `DeviceAttributeComputeCapabilityMinor`
abbrev capability_major : ℤ
capability_major = pos 75

abbrev capability_minor : ℤ
capability_minor = pos 76

module _ {W : Type 0} where
  -- The guard that every method starts with, and the one on the receiver.
  abbrev pub with_driver : {A : Type 0} → Option (Driver W) → (Driver W → Cmd W A) → Cmd W A
  with_driver none f = fail not_initialized
  with_driver (some d) f = f d

  abbrev pub with_device : {A : Type 0} → Option Device → (ℕ → Cmd W A) → Cmd W A
  with_device none f = fail (sentinel nil_device)
  with_device (some x) f = f x.handle

  module _ (driver : Option (Driver W)) where
    -- `DriverVersion`
    unfoldable pub version : Cmd W ℤ
    unfolding driver_version
    version = with_driver driver λ d. driver_version d

    -- `DeviceCount`
    unfoldable pub count : Cmd W ℤ
    unfolding device_count
    count = with_driver driver λ d. device_count d

    -- `GetDevice`
    abbrev pub get_checked : Driver W → ℤ → ℤ → Cmd W Device
    get_checked d ordinal n =
        if ltb_ℤ ordinal (pos 0) || leb_ℤ n ordinal
        then fail (sentinel invalid_ordinal)
        else get_device d (to_uint ordinal) >>= λ h. pure (record { ordinal = ordinal; handle = h })

    unfoldable pub get : ℤ → Cmd W Device
    unfolding device_count get_device
    get ordinal = with_driver driver λ d. device_count d >>= λ n. get_checked d ordinal n

    -- `Name`, `PCIBusID` and `UUID`, whose buffers have 256, 16 and 16 bytes.
    unfoldable pub name : Option Device → Cmd W Bytes
    unfolding invoke trim_null
    name x =
        with_driver driver
          λ d. with_device x λ h. invoke d (Call.device_get_name 256 h) (λ r. trim_null r.out)

    unfoldable pub pci_bus_id : Option Device → Cmd W Bytes
    unfolding invoke trim_null
    pci_bus_id x =
        with_driver driver
          λ d. with_device x λ h. invoke d (Call.device_get_pci_bus_id 16 h) (λ r. trim_null r.out)

    unfoldable pub uuid : Option Device → Cmd W Bytes
    unfolding invoke uuid_text
    uuid x =
        with_driver driver
          λ d. with_device x λ h. invoke d (Call.device_get_uuid h) (λ r. uuid_text r.out)

    -- `TotalMemory`
    unfoldable pub total_memory : Option Device → Cmd W ℕ
    unfolding device_total_mem
    total_memory x = with_driver driver λ d. with_device x λ h. device_total_mem d h

    -- `ComputeCapability`: the major number, then the minor one.
    unfoldable pub compute_capability : Option Device → Cmd W (ℤ × ℤ)
    unfolding device_attribute
    compute_capability x = with_driver driver λ d. with_device x λ h.
        device_attribute d capability_major h >>= λ major.
        device_attribute d capability_minor h >>= λ minor. pure (major, minor)

    -- `Attribute`
    unfoldable pub attribute : Option Device → ℤ → Cmd W ℤ
    unfolding device_attribute
    attribute x attr = with_driver driver λ d. with_device x λ h. device_attribute d attr h

    -- `CanAccessPeer`
    unfoldable pub can_access_peer : Option Device → Option Device → Cmd W Bool
    unfolding device_can_access_peer
    can_access_peer x y =
        with_driver driver λ d. with_device x λ h. with_device y λ k. device_can_access_peer d h k
