-- ===== src/Server/Patience.antt =====
-- arrived_at_min_wait_time: the wait before the first look at the addresses of a server.
use cloudify_vsphere_plugin.Common.{
  refl, ok, ℕ, zero, suc, ◌+◌, ◌≤◌, ◌<◌, ◌≡◌, String, none, some, ℤ, pos, ◌-ℤ◌, ltb, ltb_ℤ, Value,
  int, lookup, Exec, pure, gets, ◌>>=◌, ◌>>◌, if◌then◌else◌, arith, Bool-cases, inl, inr,
  lookup-put_self,
}
use cloudify_vsphere_plugin.Runtime.{World, put_prop}

abbrev pub min_wait_time_start : String
min_wait_time_start = "__min_wait_time_start"

-- The loop that sleeps for ten seconds as long as `count` is below the time to wait; it gives the
-- seconds that it slept in all.
unfoldable pub sleep_rounds : ℕ → ℕ → ℕ → ℕ
sleep_rounds zero minimum count = count
sleep_rounds (suc fuel) minimum count =
    let rest = sleep_rounds fuel minimum (count + 10) in if ltb count minimum then rest else count

-- What is left to wait at a later call; a start that is no number is passed over (`TypeError`).
unfoldable pub remaining : ℤ → ℤ → Value → ℤ
remaining now minimum (int start) =
    if ltb_ℤ (now -ℤ start) minimum then minimum -ℤ (now -ℤ start) else pos 0
remaining now minimum _ = pos 0

-- The seconds that the call sleeps. The clock counts whole seconds here.
unfoldable pub arrived_at_min_wait_time : {C : Type 0} → ℤ → ℕ → Exec (World C) ℤ
unfolding sleep_rounds remaining
arrived_at_min_wait_time now minimum = do
  start ← gets (λ w. lookup min_wait_time_start w.props)
  elim start [
    | none ↦ do put_prop min_wait_time_start (int now); pure (pos (sleep_rounds minimum minimum 0))
    | some v ↦ pure (remaining now (pos minimum) v)
  ]

-- With enough rounds to go, the loop ends once the time is over, within ten seconds of it.
sleep_rounds_bounds :
    (fuel minimum count : ℕ)
    → minimum ≤ fuel + count
    → count < minimum + 10
    → (minimum ≤ sleep_rounds fuel minimum count) × (sleep_rounds fuel minimum count < minimum + 10)
unfolding sleep_rounds
sleep_rounds_bounds zero minimum count h k = (omega arith, k)
sleep_rounds_bounds (suc fuel) minimum count h k = elim (Bool-cases (ltb count minimum)) [
  | inl early ↦
      rw early (sleep_rounds_bounds fuel minimum (count + 10) (omega arith) (ground arith))
  | inr late ↦ rw late (ground arith, k)
]

-- The first call ends after it slept for the time to wait and less than ten seconds more, and keeps
-- when it began.
pub arrived_at_min_wait_time_first :
    {C : Type 0} (now : ℤ) (minimum : ℕ) (w : World C)
    → lookup min_wait_time_start w.props ≡ none
    → let (r, w') = arrived_at_min_wait_time now minimum w in
      (n : ℕ) × (r ≡ ok (pos n))
      × (minimum ≤ n)
      × (n < minimum + 10)
      × (lookup min_wait_time_start w'.props ≡ some (int now))
unfolding arrived_at_min_wait_time
arrived_at_min_wait_time_first now minimum w unset =
    let (enough, short) = sleep_rounds_bounds minimum minimum 0 (omega arith) (omega arith) in
    rw unset (
      sleep_rounds minimum minimum 0,
      refl,
      enough,
      short,
      lookup-put_self min_wait_time_start (int now) w.props,
    )
