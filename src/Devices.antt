-- ===== src/Devices.antt =====
-- Devices of a virtual machine (cloudify_vsphere/devices/__init__.py), the ControllerClient of
-- vsphere_plugin_common/clients/network.py and the boot order of vsphere_plugin_common/clients/server.py:
-- the objects that they read, the requests they send, and the two instances of a relationship.
pub mod Power
pub mod Requests
pub mod PowerLaws
pub mod Serial
pub mod Hosts
pub mod Usb
pub mod Pci
pub mod DeviceIds
pub mod Controllers
pub mod Cards
pub mod Networks
pub mod Attaching
pub mod ChangeLaws
pub mod MarkLaws
pub mod DetachLaws
pub mod ControllerLaws
pub mod AgainLaws
pub mod BootLaws
pub mod CardLaws
mod Tests
pub mod Boot
use cloudify_vsphere_plugin.Common.{
  String, Text, Bool, Option, none, some, List, ℤ, Dict, Value, null, Exec, ◌>>=◌,
}
use cloudify_vsphere_plugin.Runtime.{World, Task, Platform, submit}
use cloudify_vsphere_plugin.Waiting.{wait_for_task}

-- The classes of pyVmomi that the code tests a device for or makes one of.
pub data DeviceClass : Type 0 where
  virtual_usb virtual_usb_controller virtual_usb_xhci_controller : DeviceClass
  virtual_serial_port virtual_pci_passthrough : DeviceClass
  virtual_cdrom virtual_floppy virtual_disk virtual_ethernet_card : DeviceClass
  lsi_logic lsi_logic_sas para_virtual_scsi : DeviceClass
  e1000e e1000 sriov vmxnet2 vmxnet3 : DeviceClass

-- A device; `is_a` is `isinstance`, and what a device may lack is an Option.
pub record Device : Type 0 where
  pub is_a : DeviceClass → Bool
  pub key : ℤ
  pub bus_number : Option ℤ
  pub summary : String
  pub backing_id : Option String

-- The controller of SCSI disks that `generate_scsi_card` describes.
pub record ScsiCard : Type 0 where
  pub class : DeviceClass
  pub bus_number : Value
  pub label : Value
  pub summary : String
  pub unit_number : Option ℤ
  pub hot_add_remove : Option Value
  pub shared_bus : String

-- The backing of a network card: a distributed port, or a network with its name.
pub data Backing : Type 0 where
  distributed_port : String → String → Backing
  network : String → Text → Backing

-- The network card that `generate_ethernet_card` describes.
pub record EthernetCard : Type 0 where
  pub class : DeviceClass
  pub backing : Backing
  pub start_connected : Value
  pub allow_guest_control : Value
  pub connected : Value
  pub wake_on_lan : Value
  pub address_type : Value
  pub mac_address : Option Value

-- The backing of a PCI device that is passed through.
pub record PciBacking : Type 0 where
  pub device_id : Text
  pub id : String
  pub system_id : String
  pub vendor_id : ℤ
  pub device_name : String

-- A new device.
pub data NewDevice : Type 0 where
  usb_controller : DeviceClass → ℤ → NewDevice
  usb : String → NewDevice
  serial_port : Option String → NewDevice
  pci_passthrough : PciBacking → NewDevice
  scsi_card : ScsiCard → NewDevice
  ethernet_card : EthernetCard → NewDevice

pub data Change : Type 0 where
  add : NewDevice → Change
  remove_device : Device → Change

-- A `BootOptions` entry: with the key of a device for disks and network cards.
pub data BootDevice : Type 0 where
  boot_cdrom boot_floppy : BootDevice
  boot_disk boot_ethernet : ℤ → BootDevice

-- Requests on one virtual machine. `reconfigure_locked` also locks its memory reservation.
pub data DeviceCall : Type 0 where
  power_on power_off : DeviceCall
  reconfigure reconfigure_locked : List Change → DeviceCall
  set_boot : List BootDevice → DeviceCall

-- A virtual machine. Its devices and the name of its host are as the client has them; its live
-- devices, power state and boot order are read from vSphere, after the requests sent so far.
pub record Machine : Type 0 where
  pub devices : List Device
  pub live_devices : List DeviceCall → List Device
  pub host_name : String
  pub power_state : List DeviceCall → Text
  pub boot_order : List DeviceCall → List BootDevice

-- `_get_obj_by_id` for a machine: from the cache, or with `use_cache=False`.
pub record Machines : Type 0 where
  pub cached : Value → Option Machine
  pub fresh : List DeviceCall → Value → Option Machine

-- The runtime properties of an instance, and what of them is saved.
pub record Instance : Type 0 where
  pub props : Dict Value
  pub stored : Dict Value

-- The two instances of a relationship (`ctx.source.instance` and `ctx.target.instance`).
pub record Link : Type 0 where
  pub source : Instance
  pub target : Instance
  pub calls : List DeviceCall

module _ {A : Type 0} where
  unfoldable pub on_source : Exec (World DeviceCall) A → Exec Link A
  on_source m l =
      let (r, w) =
        m (record { props = l.source.props; stored = l.source.stored; calls = l.calls }) in
      (r, record l { source = record { props = w.props; stored = w.stored }; calls = w.calls })

  unfoldable pub on_target : Exec (World DeviceCall) A → Exec Link A
  on_target m l =
      let (r, w) =
        m (record { props = l.target.props; stored = l.target.stored; calls = l.calls }) in
      (r, record l { target = record { props = w.props; stored = w.stored }; calls = w.calls })

-- Send a request and wait for its task.
unfoldable pub request : Platform DeviceCall → DeviceCall → Exec (World DeviceCall) (Unit {0})
request p call = do task ← submit p call; wait_for_task p (some task) none null
