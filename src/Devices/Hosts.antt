-- ===== src/Devices/Hosts.antt =====
-- get_usb_physical_path and get_pci_device: what the host of a machine offers.
use cloudify_vsphere_plugin.Common.{
  String, Option, none, some, List, [], ◌∷◌, ℤ, str_eq, if◌then◌else◌,
}
use cloudify_vsphere_plugin.Devices.Serial.{same_text}

pub record HostUsb : Type 0 where
  pub description : String
  pub physical_path : String

pub record HostPci : Type 0 where
  pub device_id : ℤ
  pub id : String
  pub system_id : String
  pub vendor_id : ℤ
  pub device_name : String

pub record Host : Type 0 where
  pub id : String
  pub name : String

-- A compute resource: its hosts, and what its `QueryConfigTarget` lists for a host.
pub record ComputeResource : Type 0 where
  pub hosts : List Host
  pub usb : Host → List HostUsb
  pub pci : Host → List HostPci

-- The views of all hosts and of all compute resources.
pub record Content : Type 0 where
  pub hosts : List Host
  pub computes : List ComputeResource

-- What the first element for which there is something gives.
abbrev pub first_some {ℓ κ} : {A : Type ℓ} {B : Type κ} → (A → Option B) → List A → Option B
first_some f [] = none
first_some f (x ∷ xs) = elim (f x) [ none ↦ first_some f xs | some b ↦ some b ]

module _ {B : Type 0} where
  -- The loop over the hosts of one resource, for a host of the first view.
  abbrev pub in_resource : (ComputeResource → Host → Option B) → Host → ComputeResource → Option B
  in_resource search host c =
      first_some (λ (r : Host). if str_eq host.name r.name then search c host else none) c.hosts

  -- The three nested loops that both searches have.
  unfoldable pub on_host : (ComputeResource → Host → Option B) → Content → String → Option B
  on_host search content vm_host_name =
      first_some
        (λ (h : Host).
          if str_eq h.name vm_host_name
          then first_some (in_resource search h) content.computes
          else none)
        content.hosts

abbrev pub usb_named : Option String → HostUsb → Option String
usb_named name u = if same_text u.description name then some u.physical_path else none

abbrev pub pci_named : Option String → HostPci → Option HostPci
pci_named name d = if same_text d.device_name name then some d else none

unfoldable pub get_usb_physical_path : Content → String → Option String → Option String
unfolding on_host
get_usb_physical_path content vm_host_name name =
    on_host (λ c h. first_some (usb_named name) (c.usb h)) content vm_host_name

unfoldable pub get_pci_device : Content → String → Option String → Option HostPci
unfolding on_host
get_pci_device content vm_host_name name =
    on_host (λ c h. first_some (pci_named name) (c.pci h)) content vm_host_name
