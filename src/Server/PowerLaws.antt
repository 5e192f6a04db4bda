-- ===== src/Server/PowerLaws.antt =====
-- What the deletion and the upgrade of a server send.
use cloudify_vsphere_plugin.Common.{
  ℕ, ◌≡◌, inl, inr, sym, ap, ◌∙◌, Bool, true, false, not, Option, List, [], ◌∷◌, ◌++◌, ℤ, codes,
  lower, text_eq_iff, null, Value, Result, ok, err, is_ok, pure, continue, append-nil, append_assoc,
  ltb, Bool-cases, ◌&&◌, if◌then◌else◌,
}
use cloudify_vsphere_plugin.Runtime.{World, Platform}
use cloudify_vsphere_plugin.Waiting.Quiet.{wait-calls}
use cloudify_vsphere_plugin.Server.{VmCall, power_off, destroy, upgrade, Server, run_task}
use cloudify_vsphere_plugin.Server.Power.{
  is_server_poweredon, is_server_poweredoff, default_wait, stop_server, delete_server,
  upgrade_server,
}

module _ (p : Platform VmCall) where
  -- A task that is waited for was asked for once.
  pub run_task-calls :
      (call : VmCall) (max_wait : Option ℤ) (res : Value) (w : World VmCall)
      → (run_task p call max_wait res w).1.calls ≡ w.calls ++ call ∷ []
  run_task-calls call max_wait res w = wait-calls p _ max_wait res _

  module _ (server : Server) (max_wait : Option ℤ) (w : World VmCall) where
    on_is_not_off : is_server_poweredon server w ≡ true → is_server_poweredoff server w ≡ false
    unfolding is_server_poweredoff is_server_poweredon
    on_is_not_off on =
        rw ((text_eq_iff (lower (server.power_state w.calls)) (codes "poweredon")).0 on)

    upgrade_asks :
        (m : ℕ) (on : Bool)
        → ((if on then pure tt else run_task p (upgrade m) max_wait null) w).1.calls
          ≡ w.calls ++ (if not on then upgrade m ∷ [] else [])
    upgrade_asks m true = sym (append-nil w.calls)
    upgrade_asks m false = run_task-calls (upgrade m) max_wait null w

    stop-calls :
        is_server_poweredon server w ≡ true
        → (stop_server p server default_wait w).1.calls ≡ w.calls ++ power_off ∷ []
    unfolding stop_server
    stop-calls on = rw (on_is_not_off on) (run_task-calls power_off default_wait null w)

    destroyed_after :
        (r : Result (Unit {0})) (w' : World VmCall)
        → w'.calls ≡ w.calls ++ power_off ∷ []
        → (continue r w' (λ _. run_task p destroy max_wait null)).1.calls
          ≡ w.calls ++ power_off ∷ (if is_ok r then destroy ∷ [] else [])
    destroyed_after (ok _) w' e =
        run_task-calls destroy max_wait null w'
        ∙ ap (λ cs. cs ++ destroy ∷ []) e
        ∙ append_assoc w.calls (power_off ∷ []) (destroy ∷ [])
    destroyed_after (err _) w' e = e

    abbrev pub Sends : (World VmCall → Result (Unit {0}) × World VmCall) → List VmCall → Type 0
    Sends op calls = (op w).1.calls ≡ w.calls ++ calls

    -- A hardware upgrade is asked for only below the wanted version and on a server that is not
    -- powered on.
    pub upgrade_requests :
        (minimal_vm_version : ℕ)
        → Sends (upgrade_server p server minimal_vm_version max_wait) (
            if ltb (server.version w.calls) minimal_vm_version && not (is_server_poweredon server w)
            then upgrade minimal_vm_version ∷ []
            else [])
    unfolding upgrade_server
    upgrade_requests m = elim (Bool-cases (ltb (server.version w.calls) m)) [
      | inr recent ↦ rw recent (sym (append-nil w.calls))
      | inl old ↦ rw old (upgrade_asks m (is_server_poweredon server w))
    ]

    -- A server that is powered on is destroyed only after it was stopped: if the stop fails or is put
    -- off, the request to destroy it is not sent.
    pub delete_requests : Sends (delete_server p server max_wait) (
        if is_server_poweredon server w
        then (power_off
            ∷ (if is_ok (stop_server p server default_wait w).0 then destroy ∷ [] else []))
        else destroy ∷ [])
    unfolding delete_server
    delete_requests = elim (Bool-cases (is_server_poweredon server w)) [
      | inr not_on ↦ rw not_on (run_task-calls destroy max_wait null w)
      | inl on ↦ rw on (
          destroyed_after (stop_server p server default_wait w).0
            (stop_server p server default_wait w).1 (stop-calls on))
    ]
