-- ===== src/Waiting/Poll.antt =====
-- The polling loop of `_wait_for_task` against the first tick at which the task is settled.
use cloudify_vsphere_plugin.Common.{
  ℕ, zero, suc, ◌+◌, ◌≤◌, ◌<◌, ◌≡◌, ◌⊎◌, inl, inr, ap, sym, subst, true, false, ok, err,
  operation_retry, arith, Bool-cases,
}
use cloudify_vsphere_plugin.Runtime.{Task}
use cloudify_vsphere_plugin.Waiting.{is_pending, poll}

le_cases : (a b : ℕ) → (a ≤ b) ⊎ (b < a)
le_cases a b = ground arith

-- From tick `from` on, the task is first seen settled at tick `n`.
pub record SettlesAt (t : Task) (from n : ℕ) : Type 0 where
  pub later : from ≤ n
  pub before : (k : ℕ) → from ≤ k → k < n → is_pending (t.state k) ≡ true
  pub settled : is_pending (t.state n) ≡ false

-- It is pending at each of the ticks from `from` to `last`.
pub record PendingThrough (t : Task) (from last : ℕ) : Type 0 where
  pub each : (k : ℕ) → from ≤ k → k ≤ last → is_pending (t.state k) ≡ true

-- A tick at which the task is pending is not the one at which it settles.
later_of_pending :
    (t : Task) (from n : ℕ) → SettlesAt t from n → is_pending (t.state from) ≡ true → from < n
later_of_pending t from n s pending = elim (le_cases n from) [
  | inl below ↦
      let same : n ≡ from = omega (arith, s.later) in
      cc (ap (λ k. is_pending (t.state k)) same, s.settled)
  | inr above ↦ above
]

now_of_settled :
    (t : Task) (from n : ℕ) → SettlesAt t from n → is_pending (t.state from) ≡ false → n ≡ from
now_of_settled t from n s settled = elim (le_cases n from) [
  | inl below ↦ omega (arith, s.later)
  | inr above ↦ cc (s.before from (omega arith) above)
]

pub poll_settled :
    (t : Task) (left from n : ℕ) → SettlesAt t from n → n ≤ from + left → poll t left from ≡ ok n
unfolding poll
poll_settled t zero from n s h =
    let same : n ≡ from = omega (arith, s.later) in rw (← same, s.settled)
poll_settled t (suc left) from n s h = elim (Bool-cases (is_pending (t.state from))) [
  | inl pending ↦
      let above : from < n = later_of_pending t from n s pending in
      rw pending (
        poll_settled t left (suc from) n
          (record {
            later = above;
            before = λ k a b. s.before k (omega arith) b;
            settled = s.settled;
          })
          (omega arith))
  | inr settled ↦ rw settled (ap ok (sym (now_of_settled t from n s settled)))
]

pub poll_pending :
    (t : Task) (left from : ℕ)
    → PendingThrough t from (from + left)
    → poll t left from ≡ err (operation_retry "Task {task_id} is not finished yet.")
unfolding poll
poll_pending t zero from p = rw (p.each from (omega arith) (omega arith))
poll_pending t (suc left) from p = rw (p.each from (omega arith) (omega arith)) (
    poll_pending t left (suc from)
      (record { each = λ k a b. p.each k (omega arith) (omega arith) }))

settles_now : (t : Task) (from : ℕ) → is_pending (t.state from) ≡ false → SettlesAt t from from
settles_now t from settled = record {
  later = omega arith;
  before = λ k a b. absurd (omega arith);
  settled = settled;
}

-- What holds at a tick and from the next tick on holds from that tick on.
pending_from :
    (t : Task) (from n k : ℕ)
    → is_pending (t.state from) ≡ true
    → ((j : ℕ) → suc from ≤ j → j < n → is_pending (t.state j) ≡ true)
    → from ≤ k
    → k < n
    → is_pending (t.state k) ≡ true
pending_from t from n k pending later a b = elim (le_cases k from) [
  | inl below ↦
      let same : from ≡ k = omega arith in subst (λ j. is_pending (t.state j) ≡ true) same pending
  | inr above ↦ later k above b
]

settles_after :
    (t : Task) (from n : ℕ)
    → is_pending (t.state from) ≡ true
    → SettlesAt t (suc from) n
    → SettlesAt t from n
settles_after t from n pending s = record {
  later = omega (arith, s.later);
  before = λ k a b. pending_from t from n k pending s.before a b;
  settled = s.settled;
}

-- Whatever the task does, one of the two happens.
pub pending_or_settles :
    (t : Task) (left from : ℕ)
    → PendingThrough t from (from + left) ⊎ ((n : ℕ) × SettlesAt t from n × (n ≤ from + left))
pending_or_settles t zero from = elim (Bool-cases (is_pending (t.state from))) [
  | inl pending ↦ inl (record {
    each = λ k a b.
        pending_from t from (suc from) k pending (λ j c d. absurd (omega arith)) a (omega arith);
  })
  | inr settled ↦ inr (from, settles_now t from settled, omega arith)
]
pending_or_settles t (suc left) from = elim (Bool-cases (is_pending (t.state from))) [
  | inl pending ↦ elim (pending_or_settles t left (suc from)) [
    | inl p ↦ inl (record {
      each = λ k a b.
          pending_from t from (suc (from + suc left)) k pending (λ j c d. p.each j c (omega arith))
            a (omega arith);
    })
    | inr (n, s, h) ↦ inr (n, settles_after t from n pending s, omega arith)
  ]
  | inr settled ↦ inr (from, settles_now t from settled, omega arith)
]

-- The same for a loop that begins.
pub poll_settled_first :
    (t : Task) (left n : ℕ) → SettlesAt t zero n → n ≤ left → poll t left zero ≡ ok n
poll_settled_first t left n s h = poll_settled t left zero n s (omega arith)

pub poll_pending_first :
    (t : Task) (left : ℕ)
    → PendingThrough t zero left
    → poll t left zero ≡ err (operation_retry "Task {task_id} is not finished yet.")
poll_pending_first t left p =
    poll_pending t left zero (record { each = λ k a b. p.each k a (omega arith) })

pub pending_or_settles_first :
    (t : Task) (left : ℕ) → PendingThrough t zero left ⊎ ((n : ℕ) × SettlesAt t zero n × (n ≤ left))
pending_or_settles_first t left = elim (pending_or_settles t left zero) [
  | inl p ↦ inl (record { each = λ k a b. p.each k a (omega arith) })
  | inr (n, s, h) ↦ inr (n, s, omega arith)
]
