-- ===== src/Storage/Tests.antt =====
-- A volume on a small virtual machine.
use cloudify_vsphere_plugin.Storage.Disks.{locate_disk}
use cloudify_vsphere_plugin.Common.{
  ℕ, ◌*◌, ◌≡◌, ◌≢◌, refl, codes, true, false, none, some, List, [], ◌∷◌, pos, negsuc, str, joined,
  lookup, inl, inr, arith, Result, ok, err, lower, lower_code,
}
use cloudify_vsphere_plugin.Runtime.{World, Task, success, error, Platform}
use cloudify_vsphere_plugin.Waiting.{task_error}
use cloudify_vsphere_plugin.Waiting.Poll.{SettlesAt}
use cloudify_vsphere_plugin.Storage.{
  Disk, Controller, Device, disk, scsi, other, DiskSpec, DiskCall, Machine,
}
use cloudify_vsphere_plugin.Storage.Names.{match_path, match_number, numbered_name}
use cloudify_vsphere_plugin.Storage.Numbers.{match_number-numbered_name}
use cloudify_vsphere_plugin.Storage.Scan.{new_file_name, find_controller, new_unit_number}
use cloudify_vsphere_plugin.Storage.Freshness.{new_file_name-fresh}
use cloudify_vsphere_plugin.Storage.Disks.{vm_disk_name, create_storage, scsi_address, new_disk}
use cloudify_vsphere_plugin.Storage.Creation.{
  Locates, create_storage-resumes, create_storage-keeps_name,
}
use cloudify_vsphere_plugin.Storage.Plugin.{update}

abbrev gb : ℕ
gb = 1024 * 1024 * 1024

abbrev root_disk : Disk
root_disk = record {
  file_name = codes "[ds1] web/web_2.vmdk";
  controller_key = pos 1000;
  unit_number = 0;
  capacity_in_kb = 10 * 1024 * 1024;
  capacity_in_bytes = 10 * 1024 * 1024 * 1024;
}

abbrev bus : Controller
bus = record { key = pos 1000; bus_number = 0; known = true; devices = pos 2000 ∷ [] }

abbrev parts : List Device
parts = scsi bus ∷ disk root_disk ∷ other ∷ []

abbrev vm : Machine
vm = record {
  id = "vm-1";
  power_state = codes "poweredOn";
  datastores = "ds1" ∷ [];
  devices = parts;
  live_devices = λ _. parts;
}

abbrev idle : World DiskCall
idle = record { props = []; stored = []; calls = [] }

abbrev done : Task
done = record { id = "task-1"; state = λ _. success; result = "vm-1"; fault = "" }

abbrev clash : Task
clash = record {
  id = "task-1";
  state = λ _. error;
  result = "";
  fault = "vim.fault.FileAlreadyExists";
}

abbrev answers : Task → Platform DiskCall
answers t = record { reply = λ _ _. t; recent_tasks = λ _. [] }

next_file : new_file_name parts ≡ ok (codes "[ds1] web/web_3.vmdk")
unfolding new_file_name numbered_name match_path match_number
next_file = refl

match_number-numbered_name_example :
    match_number (numbered_name (codes "[ds1] web/web") 12) ≡ some (codes "[ds1] web/web", 12)
match_number-numbered_name_example = match_number-numbered_name (codes "[ds1] web/web") 12

new_file_name-fresh_example : codes "[ds1] web/web_2.vmdk" ≢ codes "[ds1] web/web_3.vmdk"
new_file_name-fresh_example =
    new_file_name-fresh parts (codes "[ds1] web/web_3.vmdk") next_file root_disk (inr (inl refl))

-- A run that was put off saved the name of the disk.
abbrev resumed : World DiskCall
resumed = record {
  props = (vm_disk_name, joined (codes "[ds1] web/web_2.vmdk")) ∷ [];
  stored = [];
  calls = [];
}

create_storage_found :
    (create_storage (answers done) (some vm) 10 (negsuc 0) "persistent" false none resumed).0
    ≡ ok (codes "[ds1] web/web_2.vmdk", (0, 0))
unfolding scsi_address lookup lower lower_code create_storage locate_disk
create_storage_found = refl

create_storage-resumes_example :
    let (r, w') =
      create_storage (answers done) (some vm) 10 (negsuc 0) "persistent" false none resumed in
    Locates (codes "[ds1] web/web_2.vmdk") parts r
    × (lookup vm_disk_name w'.stored ≡ none)
    × (w'.calls ≡ [])
unfolding scsi_address lookup lower lower_code
create_storage-resumes_example =
    create_storage-resumes (answers done) vm refl 10 (negsuc 0) "persistent" false none resumed b'['
      (codes "ds1] web/web_2.vmdk") refl

abbrev small_disk : DiskSpec
small_disk = record {
  capacity_in_kb = 1024 * 1024;
  capacity_in_bytes = 1024 * 1024 * 1024;
  mode = "persistent";
  thin = false;
  datastore = "ds1";
  file_name = codes "[ds1] web/web_3.vmdk";
  controller_key = pos 1000;
  unit_number = 1;
}

specified : new_disk vm 1 (negsuc 0) "persistent" false ≡ ok small_disk
unfolding new_disk new_file_name find_controller new_unit_number numbered_name match_path
    match_number
specified = refl

fails_at_once : SettlesAt clash 0 0
fails_at_once = record { later = omega arith; before = λ k a b. ground arith; settled = refl }

create_storage-keeps_name_example :
    let (r, w') =
      create_storage (answers clash) (some vm) 1 (negsuc 0) "persistent" false none idle in
    (r ≡ err (task_error clash))
    × (lookup vm_disk_name w'.stored ≡ some (joined (codes "[ds1] web/web_3.vmdk")))
unfolding lower lower_code lookup
create_storage-keeps_name_example =
    create_storage-keeps_name (answers clash) vm refl 1 (negsuc 0) "persistent" false none idle
      small_disk 0 refl specified fails_at_once (omega arith) refl

abbrev volume : World DiskCall
volume = record {
  props =
      ("attached_vm_id", str "vm-1")
      ∷ ("datastore_file_name", joined (codes "[ds1] web/web_2.vmdk"))
      ∷ [];
  stored = [];
  calls = [];
}

abbrev updated : Result (Unit {0}) × World DiskCall
updated = update (answers done) (λ _. some vm) (some 10) volume
