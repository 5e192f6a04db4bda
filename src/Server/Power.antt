-- ===== src/Server/Power.antt =====
-- start_server, stop_server, suspend_server, shutdown_server_guest, reset_server, reboot_server,
-- delete_server and upgrade_server.
use cloudify_vsphere_plugin.Common.{
  ℕ, Bool, Option, some, ℤ, pos, codes, lower, text_eq, ltb, null, Exec, pure, gets, when, ◌>>=◌,
  ◌>>◌, if◌then◌else◌,
}
use cloudify_vsphere_plugin.Runtime.{World, Platform}
use cloudify_vsphere_plugin.Server.{
  VmCall, power_on, power_off, shutdown_guest, suspend, reset, reboot_guest, destroy, upgrade,
  Server, run_task, run_command,
}

module _ (server : Server) where
  unfoldable pub is_server_poweredon : World VmCall → Bool
  is_server_poweredon w = text_eq (lower (server.power_state w.calls)) (codes "poweredon")

  unfoldable pub is_server_poweredoff : World VmCall → Bool
  is_server_poweredoff w = text_eq (lower (server.power_state w.calls)) (codes "poweredoff")

  unfoldable pub is_server_suspended : World VmCall → Bool
  is_server_suspended w = text_eq (lower (server.power_state w.calls)) (codes "suspended")

-- The default of `max_wait_time` where a caller gives none.
abbrev pub default_wait : Option ℤ
default_wait = some (pos 30)

module _ (p : Platform VmCall) (server : Server) where
  unfoldable pub start_server : Option ℤ → Exec (World VmCall) (Unit {0})
  start_server max_wait = do
    on ← gets (is_server_poweredon server)
    if on then pure tt else run_task p power_on max_wait null

  unfoldable pub stop_server : Option ℤ → Exec (World VmCall) (Unit {0})
  stop_server max_wait = do
    off ← gets (is_server_poweredoff server)
    if off then pure tt else run_task p power_off max_wait null

  unfoldable pub shutdown_server_guest : Option ℤ → Exec (World VmCall) (Unit {0})
  shutdown_server_guest max_wait = do
    off ← gets (is_server_poweredoff server)
    if off then pure tt else run_command p shutdown_guest max_wait

  unfoldable pub suspend_server : Option ℤ → Exec (World VmCall) (Unit {0})
  suspend_server max_wait = do
    suspended ← gets (is_server_suspended server)
    if suspended then pure tt else do
      off ← gets (is_server_poweredoff server)
      if off then pure tt else run_task p suspend max_wait null

  unfoldable pub reset_server : Option ℤ → Exec (World VmCall) (Unit {0})
  reset_server max_wait = do
    off ← gets (is_server_poweredoff server)
    if off then start_server max_wait else run_task p reset max_wait null

  unfoldable pub reboot_server : Option ℤ → Exec (World VmCall) (Unit {0})
  reboot_server max_wait = do
    off ← gets (is_server_poweredoff server)
    if off then start_server max_wait else run_command p reboot_guest max_wait

  unfoldable pub delete_server : Option ℤ → Exec (World VmCall) (Unit {0})
  delete_server max_wait = do
    on ← gets (is_server_poweredon server)
    when on (stop_server default_wait)
    run_task p destroy max_wait null

  unfoldable pub upgrade_server : ℕ → Option ℤ → Exec (World VmCall) (Unit {0})
  upgrade_server minimal_vm_version max_wait = do
    version ← gets (λ w. server.version w.calls)
    when (ltb version minimal_vm_version) (do
      on ← gets (is_server_poweredon server)
      if on then pure tt else run_task p (upgrade minimal_vm_version) max_wait null)
