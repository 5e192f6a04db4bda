-- ===== src/Placement/Offers.antt =====
-- Facts on the lists that the selection walks through: weighted datastores and hosts' offers.
use cloudify_vsphere_plugin.Common.{
  ℕ, ◌+◌, ◌*◌, ◌≤◌, ◌≡◌, inl, inr, refl, sym, ap, subst, String, Bool, true, false, Option, none,
  some, List, [], ◌∷◌, ℤ, pos, ◌-ℤ◌, ◌≤ℤ◌, ltb_ℤ, find, Within, Within-of_find, fails_of_find, ◌∙◌,
  arith, if◌then◌else◌,
}
use cloudify_vsphere_plugin.Placement.{Datastore, Template, Host}
use cloudify_vsphere_plugin.Placement.Datastores.{
  Weighted, Choice, calculate_datastore_weighting, max_from, weigh, keep_weighted,
  candidate_datastores,
}
use cloudify_vsphere_plugin.Placement.Selection.{is_roomy, best_of, offer, offers, preferred}

-- The bytes that the server takes at least, and with its disks full.
abbrev pub minimum_used : ℕ → Template → ℕ
minimum_used vm_memory template = template.committed + vm_memory * 1024 * 1024

abbrev pub maximum_used : ℕ → Template → ℕ
maximum_used vm_memory template = minimum_used vm_memory template + template.uncommitted

module _ (d : Datastore) (vm_memory : ℕ) (template : Template) where
  pub weighting_fits :
      (w : ℤ)
      → calculate_datastore_weighting d vm_memory template ≡ some w
      → (minimum_used vm_memory template ≤ d.free_space)
        × (w ≡ pos d.free_space -ℤ pos (maximum_used vm_memory template))
  unfolding calculate_datastore_weighting ◌-ℤ◌
  weighting_fits w h = ground arith

  pub weighting_of_fits :
      minimum_used vm_memory template ≤ d.free_space
      → calculate_datastore_weighting d vm_memory template
        ≡ some (pos d.free_space -ℤ pos (maximum_used vm_memory template))
  unfolding calculate_datastore_weighting ◌-ℤ◌
  weighting_of_fits h = ground arith

-- The better of the two, by the loop's test.
better-Within :
    (b : Bool) {y best x : Weighted} (xs : List Weighted)
    → Within y ((if b then x else best) ∷ xs)
    → Within y (best ∷ x ∷ xs)
better-Within true xs (inl first) = inr (inl first)
better-Within false xs (inl first) = inl first
better-Within b xs (inr later) = inr (inr later)

pub max_from-Within : (best : Weighted) (xs : List Weighted) → Within (max_from best xs) (best ∷ xs)
max_from-Within best [] = inl refl
max_from-Within best (x ∷ xs) =
    better-Within (ltb_ℤ best.1 x.1) xs (max_from-Within (if ltb_ℤ best.1 x.1 then x else best) xs)

better-ge :
    (best x : Weighted)
    → let b = (if ltb_ℤ best.1 x.1 then x else best) in (best.1 ≤ℤ b.1) × (x.1 ≤ℤ b.1)
better-ge best x = ground arith

pub max_from-ge : (best : Weighted) (xs : List Weighted) → best.1 ≤ℤ (max_from best xs).1
max_from-ge best [] = omega arith
max_from-ge best (x ∷ xs) =
    omega (arith, (better-ge best x).0, max_from-ge (if ltb_ℤ best.1 x.1 then x else best) xs)

pub max_from-greatest :
    (best y : Weighted) (xs : List Weighted) → Within y xs → y.1 ≤ℤ (max_from best xs).1
max_from-greatest best y [] m = absurd m
max_from-greatest best y (x ∷ xs) (inr later) =
    max_from-greatest (if ltb_ℤ best.1 x.1 then x else best) y xs later
max_from-greatest best y (x ∷ xs) (inl same) =
    subst (λ (e : Weighted). e.1 ≤ℤ (max_from best (x ∷ xs)).1) (sym same)
      (omega (arith, (better-ge best x).1, max_from-ge (if ltb_ℤ best.1 x.1 then x else best) xs))

module _ (vm_memory : ℕ) (template : Template) where
  -- `x` is one of the datastores with the weighting that it has.
  abbrev pub IsWeighed : List Datastore → Weighted → Type 0
  IsWeighed ds x = Within x.0 ds × (calculate_datastore_weighting x.0 vm_memory template ≡ some x.1)

  pub Within-of_weigh :
      (x : Weighted) (ds : List Datastore) → Within x (weigh vm_memory template ds) → IsWeighed ds x
  unfolding weigh
  Within-of_weigh x [] m = absurd m
  Within-of_weigh x (d ∷ ds) m =
      kept (calculate_datastore_weighting d vm_memory template) refl (Within-of_weigh x ds) m
    where
      kept :
          (o : Option ℤ)
          → calculate_datastore_weighting d vm_memory template ≡ o
          → (Within x (weigh vm_memory template ds) → IsWeighed ds x)
          → Within x (keep_weighted d o (weigh vm_memory template ds))
          → IsWeighed (d ∷ ds) x
      kept none e rest later = let (there, f) = rest later in (inr there, f)
      kept (some w) e rest (inr later) = let (there, f) = rest later in (inr there, f)
      kept (some w) e rest (inl same) = subst (IsWeighed (d ∷ ds)) (sym same) (inl refl, e)

  pub weigh_of_Within :
      (x : Weighted) (ds : List Datastore) → IsWeighed ds x → Within x (weigh vm_memory template ds)
  unfolding weigh
  weigh_of_Within x [] m = absurd m.0
  weigh_of_Within x (d ∷ ds) m =
      kept (calculate_datastore_weighting d vm_memory template) refl (weigh_of_Within x ds) m
    where
      kept :
          (o : Option ℤ)
          → calculate_datastore_weighting d vm_memory template ≡ o
          → (IsWeighed ds x → Within x (weigh vm_memory template ds))
          → IsWeighed (d ∷ ds) x
          → Within x (keep_weighted d o (weigh vm_memory template ds))
      kept none e rest (inl same, f) =
          cc (ap (λ y. calculate_datastore_weighting y vm_memory template) same, f, e)
      kept none e rest (inr later, f) = rest (later, f)
      kept (some w) e rest (inr later, f) = inr (rest (later, f))
      kept (some w) e rest (inl same, f) =
          inl (cc (ap (λ y. calculate_datastore_weighting y vm_memory template) same, f, e))

module _ (vm_memory : ℕ) (template : Template) (allowed : List String) where
  abbrev candidates : Host → List Weighted
  candidates = candidate_datastores vm_memory template allowed

  -- A choice that its host offers: no other candidate of the host has a greater weighting.
  abbrev pub IsBest : Choice → Type 0
  IsBest c =
      Within (c.datastore, c.weighting) (candidates c.host)
      × ((x : Weighted) → Within x (candidates c.host) → x.1 ≤ℤ c.weighting)

  best_of-IsBest :
      (host : Host) (x : Weighted) (xs : List Weighted)
      → candidates host ≡ x ∷ xs
      → IsBest (best_of host x xs)
  best_of-IsBest host x xs e = (
    subst (Within (max_from x xs)) (sym e) (max_from-Within x xs),
    λ y m. AtMost y (subst (Within y) e m),
  )
    where
      AtMost : (y : Weighted) → Within y (x ∷ xs) → y.1 ≤ℤ (max_from x xs).1
      AtMost y (inl same) =
          subst (λ (z : Weighted). z.1 ≤ℤ (max_from x xs).1) (sym same) (max_from-ge x xs)
      AtMost y (inr later) = max_from-greatest x y xs later

  pub Within-of_offers :
      (c : Choice) (hosts : List Host)
      → Within c (offers vm_memory template allowed hosts)
      → Within c.host hosts × IsBest c
  unfolding offers
  Within-of_offers c [] m = absurd m
  Within-of_offers c (host ∷ hosts) m = made (candidates host) refl (Within-of_offers c hosts) m
    where
      made :
          (xs : List Weighted)
          → candidates host ≡ xs
          → (Within c (offers vm_memory template allowed hosts) → Within c.host hosts × IsBest c)
          → Within c (offer host xs (offers vm_memory template allowed hosts))
          → Within c.host (host ∷ hosts) × IsBest c
      made [] e rest later = let (there, best) = rest later in (inr there, best)
      made (x ∷ xs) e rest (inr later) = let (there, best) = rest later in (inr there, best)
      made (x ∷ xs) e rest (inl same) =
          subst (λ d. Within d.host (host ∷ hosts) × IsBest d) (sym same)
            (inl refl, best_of-IsBest host x xs e)

  pub offers_of_Within :
      (h : Host) (x : Weighted) (hosts : List Host)
      → Within h hosts
      → Within x (candidates h)
      → (c : Choice) × Within c (offers vm_memory template allowed hosts) × (x.1 ≤ℤ c.weighting)
  unfolding offers
  offers_of_Within h x [] m k = absurd m
  offers_of_Within h x (host ∷ hosts) (inl same) k =
      made (candidates host) refl (subst (λ y. Within x (candidates y)) same k)
    where
      made :
          (xs : List Weighted)
          → candidates host ≡ xs
          → Within x xs
          → (c : Choice) × Within c (offer host xs (offers vm_memory template allowed hosts))
            × (x.1 ≤ℤ c.weighting)
      made [] e there = absurd there
      made (y ∷ ys) e there = (
        best_of host y ys,
        inl refl,
        (best_of-IsBest host y ys e).1 x (subst (Within x) (sym e) there),
      )
  offers_of_Within h x (host ∷ hosts) (inr later) k =
      let (c, there, at_least) = offers_of_Within h x hosts later k in
      (c, past (candidates host) c there, at_least)
    where
      past :
          (xs : List Weighted) (c : Choice)
          → Within c (offers vm_memory template allowed hosts)
          → Within c (offer host xs (offers vm_memory template allowed hosts))
      past [] c there = there
      past (y ∷ ys) c there = inr there

pub preferred-Within : (cs : List Choice) {c : Choice} → preferred cs ≡ some c → Within c cs
preferred-Within [] e = cc
preferred-Within (x ∷ cs) {c} e = chosen (find is_roomy (x ∷ cs)) refl e
  where
    chosen :
        (o : Option Choice)
        → find is_roomy (x ∷ cs) ≡ o
        → elim o [ none ↦ some x | some r ↦ some r ] ≡ some c
        → Within c (x ∷ cs)
    chosen none f e' = inl (cc)
    chosen (some r) f e' = (Within-of_find is_roomy (x ∷ cs) (f ∙ e')).0

pub preferred-none : (cs : List Choice) → preferred cs ≡ none → cs ≡ []
preferred-none [] e = refl
preferred-none (x ∷ cs) e = ground arith

-- If any choice is roomy, the preferred one is.
pub preferred-roomy :
    (c : Choice) (cs : List Choice) {b : Choice}
    → Within c cs
    → is_roomy c ≡ true
    → preferred cs ≡ some b
    → is_roomy b ≡ true
preferred-roomy c [] m roomy e = absurd m
preferred-roomy c (x ∷ cs) {b} m roomy e = chosen (find is_roomy (x ∷ cs)) refl e
  where
    chosen :
        (o : Option Choice)
        → find is_roomy (x ∷ cs) ≡ o
        → elim o [ none ↦ some x | some r ↦ some r ] ≡ some b
        → is_roomy b ≡ true
    chosen none f e' = cc (fails_of_find is_roomy (x ∷ cs) f m, roomy)
    chosen (some r) f e' = (Within-of_find is_roomy (x ∷ cs) (f ∙ e')).1
