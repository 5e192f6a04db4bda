-- ===== src/Server/Resize.antt =====
-- ServerClient.resize_server.
use cloudify_vsphere_plugin.Common.{
  ◌%◌, ◌||◌, not, Option, none, some, ℤ, pos, pos_part, ltb_ℤ, eqb_ℤ, ◌==◌, codes, has_part, null,
  Result, ok, err, Error, non_recoverable, Exec, pure, lift, is_some, ◌>>=◌, if◌then◌else◌,
}
use cloudify_vsphere_plugin.Runtime.{World, Platform, submit}
use cloudify_vsphere_plugin.Waiting.{wait_for_task}
use cloudify_vsphere_plugin.Server.{VmCall, reconfigure, Server, Config}

-- The value for `config`: `none` if it is the current one. An argument is `none` if it is not given
-- and `some none` if `int` refuses it.
unfoldable pub wanted_cpus : ℤ → Option (Option ℤ) → Result (Option ℤ)
wanted_cpus current none = ok none
wanted_cpus current (some none) = err (non_recoverable "Invalid cpus value: {err}")
wanted_cpus current (some (some cpus)) =
    if ltb_ℤ cpus (pos 1)
    then err (non_recoverable "cpus must be at least 1. Is {cpus}")
    else ok (if eqb_ℤ current cpus then none else some cpus)

unfoldable pub wanted_memory : ℤ → Option (Option ℤ) → Result (Option ℤ)
wanted_memory current none = ok none
wanted_memory current (some none) = err (non_recoverable "Invalid memory value: {err}")
wanted_memory current (some (some memory)) =
    if ltb_ℤ memory (pos 512)
    then err (non_recoverable "Memory must be at least 512MB. Is {memory}")
    else if not ((pos_part memory % 128) == 0)
    then err (non_recoverable "Memory must be an integer multiple of 128. Is {memory}")
    else ok (if eqb_ℤ current memory then none else some memory)

-- `except NonRecoverableError`: an error about the memory gets a longer text.
abbrev pub explained : Error → Error
explained (non_recoverable text) =
    if has_part (codes text) (codes "configSpec.memoryMB")
    then non_recoverable
        "Memory error resizing Server. May be caused by https://kb.vmware.com/kb/2008405 . If so the Server may be resized while it is switched off."
    else non_recoverable text
explained e = e

abbrev pub explain : Result (Unit {0}) → Result (Unit {0})
explain (ok _) = ok tt
explain (err e) = err (explained e)

abbrev explain_failure : Exec (World VmCall) (Unit {0}) → Exec (World VmCall) (Unit {0})
explain_failure m w = let (r, w') = m w in (explain r, w')

module _ (p : Platform VmCall) (server : Server) where
  unfoldable pub resize_server :
      Option (Option ℤ) → Option (Option ℤ) → Option ℤ → Exec (World VmCall) (Unit {0})
  resize_server cpus memory max_wait = do
    num_cpus ← lift (wanted_cpus server.num_cpu cpus)
    memory_mb ← lift (wanted_memory server.memory_mb memory)
    if not (is_some num_cpus || is_some memory_mb) then pure tt else do
      let config : Config = record { num_cpus = num_cpus; memory_mb = memory_mb }
      task ← submit p (reconfigure config)
      explain_failure (wait_for_task p (some task) max_wait null)
