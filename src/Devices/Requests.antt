-- ===== src/Devices/Requests.antt =====
-- What a request and its wait do to the requests sent and to the properties that are not theirs.
use cloudify_vsphere_plugin.Common.{◌≡◌, ℕ, ap, ok, String, none, some, [], ◌∷◌, ◌++◌, null, lookup}
use cloudify_vsphere_plugin.Runtime.{World, Platform, success}
use cloudify_vsphere_plugin.Waiting.Quiet.{wait-calls}
use cloudify_vsphere_plugin.Waiting.Success.{wait-succeeded}
use cloudify_vsphere_plugin.Waiting.Apart.{IsApart, wait-lookup}
use cloudify_vsphere_plugin.Devices.{DeviceCall, Link, on_source, on_target, request}

module _ (p : Platform DeviceCall) (c : DeviceCall) where
  pub request-calls : (w : World DeviceCall) → (request p c w).1.calls ≡ w.calls ++ c ∷ []
  unfolding request
  request-calls w = wait-calls p (some (p.reply w.calls c)) none null _

  pub request-lookup :
      (w : World DeviceCall) (k : String)
      → IsApart k
      → lookup k (request p c w).1.props ≡ lookup k w.props
  unfolding request
  request-lookup w k apart = wait-lookup p (p.reply w.calls c) _ k apart

  -- A request that was waited for succeeds only if its task was seen to succeed.
  pub target_request-succeeded :
      (l : Link) {l' : Link}
      → on_target (request p c) l ≡ (ok tt, l')
      → (n : ℕ) × ((p.reply l.calls c).state n ≡ success)
  unfolding on_target request
  target_request-succeeded l done =
      wait-succeeded p (p.reply l.calls c) none null _ (ap (λ q. q.0) done)

  pub source_request-calls : (l : Link) → (on_source (request p c) l).1.calls ≡ l.calls ++ c ∷ []
  unfolding on_source
  source_request-calls l = request-calls _

  pub target_request-calls : (l : Link) → (on_target (request p c) l).1.calls ≡ l.calls ++ c ∷ []
  unfolding on_target
  target_request-calls l = request-calls _

  pub source_request-lookup :
      (l : Link) (k : String)
      → IsApart k
      → lookup k (on_source (request p c) l).1.source.props ≡ lookup k l.source.props
  unfolding on_source
  source_request-lookup l k apart = request-lookup _ k apart
