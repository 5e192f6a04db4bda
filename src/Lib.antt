-- ===== src/Lib.antt =====
-- Cloudify's vSphere plugin: what its operations ask of vSphere and what they keep.
--
-- An operation of a node runs against a platform that answers a request with a task, and waits
-- for that task. A wait that takes too long is put off: the operation raises a retry, and its next
-- run takes the wait up from the runtime properties of the node instance. On this stands all that
-- the clients do: placing a new server, changing its power state, and the rest.
--
-- The files and the code:
--   Common: lists, integers, text, dictionaries, Python calls and values that the parts share.
--   Runtime: a node instance with its properties, saved and unsaved, and the requests sent so far.
--   Helpers: vsphere_plugin_common/utils.py. Helpers/Inputs is the decorator op, Logs
--     prepare_for_log, Related the search along relationships.
--   Inventory: what VsphereClient reads and keeps (vsphere_plugin_common/clients/__init__.py).
--     Inventory/Pools builds the resource pools, PoolLaws and CacheLaws have its theorems, Lookup
--     finds objects by name, id, place and relationship, Nics has get_vm_networks.
--   Waiting: VsphereClient._wait_for_task (vsphere_plugin_common/clients/__init__.py) and
--     run_deferred_task (vsphere_plugin_common/__init__.py). Waiting/Poll is the polling loop,
--     Outcomes and Success the ways a wait ends, Resuming the second run, Quiet the requests, Client the
--     decorator with_client around an operation on a node.
--   Placement: ServerClient.find_candidate_hosts, select_host_and_datastore, get_resource_pool and
--     what they call (vsphere_plugin_common/clients/server.py).
--   Network: NetworkClient (vsphere_plugin_common/clients/network.py) and the operations of
--     vsphere_network_plugin/network.py and ippool.py. Network/Switches and PortGroups are the client, Plugin the
--     operations; Progress and Runs follow a port group over the runs that create it;
--     IpPools has the ip pools.
--   Server: ServerClient's operations on an existing virtual machine (the same file); Server/Power
--     has those on its power state.
--     Server/Snapshots and Server/Resize have the snapshots and the change of its hardware.
--     Server/Naming and Server/Lifecycle are the operations of vsphere_server_plugin/server.py.
--     Server/Networks has the networks of a new server, from handle_networks down; Judging and
--     Validation have what is accepted, NetworkLaws the list that comes out, LinkLaws the nics on
--     relationships. Server/Guest reads the state and the addresses that the guest reports.
--     State is get_state, Patience the wait before it, Addresses the address that is kept. NicPlan has
--     the cards that an update takes away and adds, NicSpecs a new card, Resizing the operations on
--     the sizes of a server and those of vsphere_server_plugin/power.py.
--   Storage: StorageClient (vsphere_plugin_common/clients/storage.py) and the operations of
--     vsphere_storage_plugin/storage.py. Storage/Names has the patterns of file names, Scan the
--     name, controller and unit of a new disk, Disks the client and Plugin the operations; Addresses
--     says what the SCSI address of a disk is.
--   Devices: cloudify_vsphere/devices/__init__.py, ControllerClient (clients/network.py) and
--     set_boot_order (clients/server.py). Devices/Serial, Usb and Pci attach and detach devices of a
--     machine, Power turns it off for that, Hosts has what its host offers; Controllers and Cards are
--     the client, Networks and Attaching the operations on controllers and cards, Boot the boot order.
--     PowerLaws and ChangeLaws follow the requests, MarkLaws and DetachLaws the mark __attached,
--     ControllerLaws and AgainLaws the key of a new device.
--   ResourcePool: cloudify_vsphere/resource_pool/__init__.py and the ServerClient's operations on
--     pools. Spec is the configuration of a pool, Client and Plugin the operations.
--
-- How the code is read:
--   - A method is a function of the world (Exec): the properties of the instance, those that
--     instance.update() saved, and the list of requests. What was written before a raise stays.
--   - vSphere is a parameter (Platform): the reply to a request and the tasks that it lists are
--     functions of all that was asked before. A task gives its state by the number of sleeps; the
--     state is read once per round.
--   - The polling loop runs on the number of rounds that the code itself computes from
--     max_wait_time, so that it needs no bound of its own. The digits of a number n are written on
--     fuel n + 1, and n has at most as many digits.
--   - Python integers are ℤ where they can be negative and ℕ where the API gives counts and sizes.
--     Floats are an interface (Placement/Ratings.Floats): division, product and an order in
--     which `less` is asymmetric and `not less` is transitive, as for floats that are no NaN.
--   - Text is a list of code points. `lower` and `unquote` are those of ASCII text.
--   - The devices that the storage client reads first come from its cache, those it reads after
--     the creation from vSphere, after the requests sent so far. A file name is a string.
--   - Building a resource pool runs on the depth to which Python may still recurse; a depth above the
--     rank of each pool is enough, where a pool inside another has the lower rank.
--   - What the network client has cached is an argument (Network.View); its requests for port groups
--     on hosts start no task and are answered at once. get_network_cidr reads the ip pools and is a
--     parameter. What `_collect_properties` gives is an argument of the look-ups.
--   - A relationship leads to an instance of its own: a dictionary that two of them shared would
--     change for both.
--   - An operation on a relationship runs on two instances (Devices.Link), whose properties are their
--     own; each wait is kept on the instance that the code gives it. A device is a record of what the
--     code reads of it, `isinstance` one of its fields. `hex` is written for numbers of 16 bits, on
--     four digits.
--   - The loop of arrived_at_min_wait_time runs on as many rounds as there are seconds to wait, and
--     sleeps ten seconds in each. The clock counts whole seconds.
--   - ShutdownGuest and RebootGuest of the platform return no task, so that the wait after them takes
--     up a saved one, if there is any.
--   - The networks that `update` compares are validated, so that their names are texts.
--   - An error holds the template of its message, before `format`; that of a failed
--     task holds the text of its fault.
--
-- Not modelled: logging, the connection and its configuration, HTTP uploads, the content library,
-- OVF archives, ISO images and the queries to the property collector, with
-- the cached objects built from them (but for resource pools), which the operations take as given;
-- creating and starting a server, the check of its drift and the other parts of its update; the NSX-T nics of the
-- network plugin and what it reads of an ip pool.
pub mod Common
pub mod Runtime
pub mod Helpers
pub mod Inventory
pub mod Waiting
pub mod Placement
pub mod Network
pub mod Server
pub mod Storage
pub mod Devices
pub mod ResourcePool
