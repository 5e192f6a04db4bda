-- ===== src/Devices/Tests.antt =====
-- A machine that is on, with a serial port, an IDE bus and two SCSI controllers, and runs on it.
use cloudify_vsphere_plugin.Common.{
  ◌≡◌, refl, String, Text, codes, Bool, true, false, Option, none, some, List, [], ◌∷◌, ◌++◌, ℤ,
  pos, negsuc, Value, flag, int, str, arr, item, no_items, lookup, put, remove, ok, is_ok, lower,
  lower_code, ℕ, ◌<◌, ◌+◌, ◌*◌, pos_part, neg_part,
}
use cloudify_vsphere_plugin.Runtime.{World, Task, success, running, Platform}
use cloudify_vsphere_plugin.Waiting.{wait_for_task, poll}
use cloudify_vsphere_plugin.Devices.{
  DeviceCall, power_on, power_off, reconfigure, reconfigure_locked, DeviceClass,
  virtual_serial_port, lsi_logic, para_virtual_scsi, virtual_disk, Device, NewDevice, scsi_card,
  serial_port, add, set_boot, boot_disk, Machine, Machines, Instance, Link, on_source, on_target,
  request,
}
use cloudify_vsphere_plugin.Devices.Power.{
  is_on, is_off, change_while_off, temp_stop_server, temp_start_server,
}
use cloudify_vsphere_plugin.Devices.PowerLaws.{TurnsOff, AddsCarefully}
use cloudify_vsphere_plugin.Devices.Serial.{
  DeviceNode, attach_serial_port, detach_serial_port, target_machine,
}
use cloudify_vsphere_plugin.Devices.Hosts.{Content, Host}
use cloudify_vsphere_plugin.Devices.Pci.{
  attach_pci_device, detach_pci_device, device_id_text, hex, lstrip_0x,
}
use cloudify_vsphere_plugin.Common.{◌⊎◌}
use cloudify_vsphere_plugin.Devices.Usb.{UsbNode, attach_usb_device, detach_usb_device}
use cloudify_vsphere_plugin.Devices.Controllers.{attach_controller}
use cloudify_vsphere_plugin.Devices.Cards.{generate_scsi_card}
use cloudify_vsphere_plugin.Devices.Boot.{set_boot_order, same_types}
use cloudify_vsphere_plugin.Devices.ChangeLaws.{devices_changed_while_off}
use cloudify_vsphere_plugin.Devices.MarkLaws.{Marks, devices_marked}
use cloudify_vsphere_plugin.Devices.DetachLaws.{detach_usb_device_then_attach}
use cloudify_vsphere_plugin.Devices.ControllerLaws.{Finds, attach_controller-Finds}
use cloudify_vsphere_plugin.Devices.AgainLaws.{attach_controller_again}
use cloudify_vsphere_plugin.Devices.DeviceIds.{read_number, device_id_text_read}
use cloudify_vsphere_plugin.Devices.CardLaws.{IsHighest, generate_scsi_card-IsHighest}
use cloudify_vsphere_plugin.Devices.BootLaws.{set_boot_order_confirms}

abbrev done : Task
done = record { id = "task-1"; state = λ _. success; result = "vm-1"; fault = "none" }

abbrev slow : Task
slow = record { id = "task-2"; state = λ _. running; result = "vm-1"; fault = "none" }

abbrev esx : Platform DeviceCall
esx = record { reply = λ _ _. done; recent_tasks = λ _. done ∷ [] }

abbrev slow_esx : Platform DeviceCall
slow_esx = record { reply = λ _ _. slow; recent_tasks = λ _. [] }

-- The power state after the requests, from the one before them.
abbrev state_after : Text → List DeviceCall → Text
state_after s [] = s
state_after s (power_on ∷ cs) = state_after (codes "poweredOn") cs
state_after s (power_off ∷ cs) = state_after (codes "poweredOff") cs
state_after s (_ ∷ cs) = state_after s cs

abbrev only : DeviceClass → DeviceClass → Bool
only lsi_logic lsi_logic = true
only virtual_serial_port virtual_serial_port = true
only virtual_disk virtual_disk = true
only _ _ = false

abbrev device : DeviceClass → ℤ → Option ℤ → String → Device
device c k bus s = record {
  is_a = only c;
  key = k;
  bus_number = bus;
  summary = s;
  backing_id = none;
}

abbrev own_devices : List Device
own_devices =
    device virtual_serial_port (pos 9000) none "com1"
    ∷ device lsi_logic (pos 1000) (some (pos 0)) "LSI Logic"
    ∷ device lsi_logic (pos 1001) (some (pos 1)) "LSI Logic"
    ∷ device virtual_disk (pos 2000) none "disk"
    ∷ []

abbrev machine : List Device → Machine
machine ds = record {
  devices = ds;
  live_devices = λ _. ds;
  host_name = "esx-1";
  power_state = state_after (codes "poweredOn");
  boot_order = λ _. boot_disk (pos 2000) ∷ [];
}

abbrev machines : Machines
machines = record {
  cached = λ _. some (machine own_devices);
  fresh = λ _ _.
      some (machine (own_devices ++ device lsi_logic (pos 1002) (some (pos 2)) "LSI Logic" ∷ []));
}

abbrev bare : Machines
bare = record {
  cached = λ _. some (machine []);
  fresh = λ _ _. some (machine (device lsi_logic (pos 1000) (some (pos 0)) "LSI Logic" ∷ []));
}

abbrev instance_of : List (String × Value) → Instance
instance_of d = record { props = d; stored = d }

abbrev link : List (String × Value) → Link
link d = record {
  source = instance_of d;
  target = instance_of (("vsphere_server_id", str "vm-1") ∷ []);
  calls = [];
}

abbrev host : Host
host = record { id = "host-1"; name = "esx-1" }

abbrev content : Content
content = record {
  hosts = host ∷ [];
  computes =
      record {
        hosts = host ∷ [];
        usb = λ _. record { description = "stick"; physical_path = "path:0/1" } ∷ [];
        pci = λ _.
            record {
              device_id = pos 5120;
              id = "00:01";
              system_id = "sys";
              vendor_id = pos 8;
              device_name = "com1";
            }
            ∷ [];
      }
      ∷ [];
}

abbrev port : Bool → DeviceNode
port turn_off = record { device_name = some "com1"; turn_off_vm = turn_off }

abbrev stick : UsbNode
stick = record { device_name = some "stick"; controller_type = some "usb3" }

turns_off :
    (s : Text) (sent : List DeviceCall)
    → state_after s (sent ++ power_off ∷ []) ≡ codes "poweredOff"
turns_off s [] = refl
turns_off s (power_on ∷ cs) = turns_off (codes "poweredOn") cs
turns_off s (power_off ∷ cs) = turns_off (codes "poweredOff") cs
turns_off s (reconfigure _ ∷ cs) = turns_off s cs
turns_off s (reconfigure_locked _ ∷ cs) = turns_off s cs
turns_off s (set_boot _ ∷ cs) = turns_off s cs

machine-TurnsOff : TurnsOff esx (machine own_devices)
unfolding is_off lower lower_code
machine-TurnsOff sent n succeeded = rw (turns_off (codes "poweredOn") sent) refl

-- The machine is stopped for the change and started after it.
serial_port_run :
    ((attach_serial_port esx machines (port true) (link [])).1.calls
      ≡ power_off ∷ reconfigure (add (serial_port (some "com1")) ∷ []) ∷ power_on ∷ [])
    × ((attach_serial_port esx machines (port false) (link [])).1.calls ≡ [])
unfolding attach_serial_port lookup target_machine on_target change_while_off temp_stop_server
    is_off lower lower_code request wait_for_task poll put remove on_source temp_start_server is_on
serial_port_run = (refl, refl)

devices_changed_while_off_example :
    let node = port true in
    let l = link [] in
    let vm = machine own_devices in
    AddsCarefully vm (attach_serial_port esx machines node) l
    × AddsCarefully vm (detach_serial_port esx machines node) l
    × AddsCarefully vm (attach_pci_device esx machines content node) l
    × AddsCarefully vm (detach_pci_device esx machines content node) l
devices_changed_while_off_example =
    devices_changed_while_off esx machines content (port true) (machine own_devices) (link [])
      machine-TurnsOff refl

devices_marked_example :
    Marks (attach_serial_port esx machines (port true)) (link [])
    × Marks (attach_pci_device esx machines content (port true)) (link [])
    × Marks (attach_usb_device esx machines content stick) (link [])
unfolding lookup
devices_marked_example = devices_marked esx machines content (port true) stick (link []) refl

detach_usb_device_then_attach_example :
    let l' =
      (detach_usb_device esx machines content stick (link (("__attached", flag true) ∷ []))).1 in
    attach_usb_device esx machines content stick l' ≡ (ok tt, l')
unfolding lookup
detach_usb_device_then_attach_example =
    detach_usb_device_then_attach esx machines content stick (link (("__attached", flag true) ∷ []))
      refl

abbrev new_card : NewDevice
new_card = scsi_card (record {
  class = lsi_logic;
  bus_number = int (pos 1);
  label = str "disks";
  summary = "LSI Logic";
  unit_number = none;
  hot_add_remove = none;
  shared_bus = "noSharing";
})

abbrev idle : World DeviceCall
idle = record { props = []; stored = []; calls = [] }

attach_controller-Finds_example :
    let (r, w') = attach_controller esx machines (str "vm-1") new_card lsi_logic idle in
    Finds esx machines
      (str "vm-1")
      lsi_logic
      (arr (item (int (pos 1000)) (item (int (pos 1001)) no_items)))
      r
      w'
unfolding lookup
attach_controller-Finds_example =
    attach_controller-Finds esx machines (str "vm-1") lsi_logic new_card idle

-- A machine without such a controller is asked for two of them.
attach_controller_again_example :
    (attach_controller slow_esx bare
      (str "vm-1")
      new_card
      lsi_logic
      (attach_controller slow_esx bare (str "vm-1") new_card lsi_logic idle).1).1.calls
    ≡ reconfigure (add new_card ∷ []) ∷ reconfigure (add new_card ∷ []) ∷ []
unfolding attach_controller lookup request wait_for_task poll
attach_controller_again_example =
    attach_controller_again slow_esx (str "vm-1") lsi_logic new_card bare bare idle (machine [])
      (machine []) refl refl refl refl refl

device_id_text_runs :
    (device_id_text (pos 5120) ≡ codes "1400")
    × (device_id_text (negsuc 0) ≡ codes "ffff")
    × (device_id_text (pos 65536) ≡ [])
unfolding device_id_text
device_id_text_runs = (refl, refl, refl)

generate_scsi_card-IsHighest_example :
    (m : ℤ) × (int (pos 1) ≡ int m) × IsHighest (pos 0) m own_devices
unfolding generate_scsi_card lookup
generate_scsi_card-IsHighest_example =
    generate_scsi_card-IsHighest machines (("label", str "disks") ∷ []) (str "vm-1")
      (machine own_devices) (pos 0)
      (record {
        class = para_virtual_scsi;
        bus_number = int (pos 1);
        label = str "disks";
        summary = "VMware paravirtual SCSI";
        unit_number = none;
        hot_add_remove = none;
        shared_bus = "noSharing";
      })
      refl refl refl

set_boot_order_confirms_example :
    let order = codes "Disk" ∷ codes "usb" ∷ [] in
    let (r, w') = set_boot_order esx machines (str "vm-1") order [] [] idle in
    (w'.calls ≡ set_boot (boot_disk (pos 2000) ∷ []) ∷ [])
    × (is_ok r ≡ true → same_types (boot_disk (pos 2000) ∷ []) (boot_disk (pos 2000) ∷ []) ≡ true)
unfolding lower lower_code
set_boot_order_confirms_example =
    set_boot_order_confirms esx machines (str "vm-1") (codes "Disk" ∷ codes "usb" ∷ []) [] []
      (machine own_devices) idle refl

device_id_text_read_example :
    (m : ℕ) × (m < 65536)
    × (((m ≡ 0) × (device_id_text (negsuc 15) ≡ []))
        ⊎ ((0 < m) × (read_number (device_id_text (negsuc 15)) ≡ some m)))
    × (q : ℤ) × (0 + 65536 * neg_part q ≡ 16 + m + 65536 * pos_part q)
device_id_text_read_example = device_id_text_read (negsuc 15)

-- A device whose id is a multiple of 2^16 gets an empty one.
empty_device_id : device_id_text (pos 65536) ≡ []
unfolding device_id_text hex lstrip_0x
empty_device_id = refl
