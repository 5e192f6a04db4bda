-- ===== src/Server/ResizeLaws.antt =====
-- What a resize asks of vSphere.
use cloudify_vsphere_plugin.Common.{
  ◌%◌, ◌≡◌, refl, sym, Bool, true, false, ◌&&◌, ◌||◌, Option, none, some, [], ◌∷◌, ◌++◌, ℤ, pos,
  pos_part, leb_ℤ, eqb_ℤ, ◌==◌, null, ok, is_ok, is_some, error_of_fail, append-nil, arith,
  Bool-cases, inl, inr, if◌then◌else◌,
}
use cloudify_vsphere_plugin.Runtime.{World, Platform}
use cloudify_vsphere_plugin.Waiting.Quiet.{wait-calls}
use cloudify_vsphere_plugin.Server.{VmCall, reconfigure, Server, Config}
use cloudify_vsphere_plugin.Server.Resize.{wanted_cpus, wanted_memory, resize_server}

-- A number of processors that a server may have; not giving one is fine.
abbrev pub cpus_are_valid : Option (Option ℤ) → Bool
cpus_are_valid none = true
cpus_are_valid (some none) = false
cpus_are_valid (some (some n)) = leb_ℤ (pos 1) n

-- At least 512 MB, in steps of 128.
abbrev pub memory_is_valid : Option (Option ℤ) → Bool
memory_is_valid none = true
memory_is_valid (some none) = false
memory_is_valid (some (some n)) = leb_ℤ (pos 512) n && ((pos_part n % 128) == 0)

-- The value that was asked for, if it differs from the current one.
abbrev pub change : ℤ → Option (Option ℤ) → Option ℤ
change current none = none
change current (some none) = none
change current (some (some n)) = if eqb_ℤ current n then none else some n

wanted_cpus-valid :
    (current : ℤ) (cpus : Option (Option ℤ))
    → cpus_are_valid cpus ≡ true
    → wanted_cpus current cpus ≡ ok (change current cpus)
unfolding wanted_cpus
wanted_cpus-valid current none v = refl
wanted_cpus-valid current (some none) v = cc
wanted_cpus-valid current (some (some n)) v = ground arith

wanted_cpus-invalid :
    (current : ℤ) (cpus : Option (Option ℤ))
    → cpus_are_valid cpus ≡ false
    → is_ok (wanted_cpus current cpus) ≡ false
unfolding wanted_cpus
wanted_cpus-invalid current none v = cc
wanted_cpus-invalid current (some none) v = refl
wanted_cpus-invalid current (some (some n)) v = ground arith

wanted_memory-valid :
    (current : ℤ) (memory : Option (Option ℤ))
    → memory_is_valid memory ≡ true
    → wanted_memory current memory ≡ ok (change current memory)
unfolding wanted_memory
wanted_memory-valid current none v = refl
wanted_memory-valid current (some none) v = cc
wanted_memory-valid current (some (some n)) v = ground arith

wanted_memory-invalid :
    (current : ℤ) (memory : Option (Option ℤ))
    → memory_is_valid memory ≡ false
    → is_ok (wanted_memory current memory) ≡ false
unfolding wanted_memory
wanted_memory-invalid current none v = cc
wanted_memory-invalid current (some none) v = refl
wanted_memory-invalid current (some (some n)) v = ground arith

module _ (p : Platform VmCall) (server : Server) (cpus memory : Option (Option ℤ))
    (max_wait : Option ℤ) (w : World VmCall) where
  abbrev pub asked_config : Config
  asked_config = record {
    num_cpus = change server.num_cpu cpus;
    memory_mb = change server.memory_mb memory;
  }

  abbrev pub is_resize : Bool
  is_resize = is_some (change server.num_cpu cpus) || is_some (change server.memory_mb memory)

  -- With valid arguments one request is sent, with the values that differ from those of the server,
  -- or none if there are no such values.
  pub resize_requests :
      cpus_are_valid cpus ≡ true
      → memory_is_valid memory ≡ true
      → (resize_server p server cpus memory max_wait w).1.calls
        ≡ w.calls ++ (if is_resize then reconfigure asked_config ∷ [] else [])
  unfolding resize_server
  resize_requests good_cpus good_memory =
      rw
        (
          wanted_cpus-valid server.num_cpu cpus good_cpus,
          wanted_memory-valid server.memory_mb memory good_memory,
        )
        (elim (Bool-cases is_resize) [
          | inl differs ↦ rw differs (wait-calls p _ max_wait null _)
          | inr same ↦ rw same (sym (append-nil w.calls))
        ])

  -- With an invalid argument the resize raises, and changes nothing and asks for nothing.
  pub resize_refuses :
      (cpus_are_valid cpus && memory_is_valid memory) ≡ false
      → let (r, w') = resize_server p server cpus memory max_wait w in (is_ok r ≡ false) × (w' ≡ w)
  unfolding resize_server
  resize_refuses bad = elim (Bool-cases (cpus_are_valid cpus)) [
    | inr bad_cpus ↦
        let (e, raised) =
          error_of_fail (wanted_cpus server.num_cpu cpus)
            (wanted_cpus-invalid server.num_cpu cpus bad_cpus) in
        rw raised (refl, refl)
    | inl good ↦
        let (e, raised) =
          error_of_fail (wanted_memory server.memory_mb memory)
            (wanted_memory-invalid server.memory_mb memory (ground arith)) in
        rw (wanted_cpus-valid server.num_cpu cpus good, raised) (refl, refl)
  ]
