-- ===== src/Pipeline/Redeliver/Ancestry.antt =====
-- That the loop of `ancestry_of` ends: every round sees a tag of the scenario that was not seen.
use testing_hq.Prelude.{
  ℕ, zero, suc, ◌≤◌, ◌≡◌, inl, inr, refl, Bool, true, false, not, Option, none, some, List, [], ◌∷◌,
  arith, length, count_if, is_some, Option-cases,
}
use testing_hq.Prelude.Text.{Text, text_eq, text_beq_iff}
use testing_hq.Prelude.Distinct.{mem}
use testing_hq.Pipeline.Readback.Normalize.{Words}
use testing_hq.Pipeline.Redeliver.{
  Delivery, Scenario, first_with_tag, delivery_for, parent_named, parent_of, ancestors, ancestry_of,
}

abbrev unseen : List Text → Delivery → Bool
unseen seen d = not (mem d.tag seen)

count-le-length : (p : Delivery → Bool) (ds : List Delivery) → count_if p ds ≤ length ds
count-le-length p [] = omega arith
count-le-length p (d ∷ ds) = ground (arith, count-le-length p ds)

fewer_unseen :
    (t : Text) (seen : List Text) (ds : List Delivery)
    → count_if (unseen (t ∷ seen)) ds ≤ count_if (unseen seen) ds
fewer_unseen t seen [] = omega arith
fewer_unseen t seen (d ∷ ds) = ground (arith, fewer_unseen t seen ds)

-- A tag that is delivered and was not seen makes one more.
one_more_seen :
    (t : Text) (seen : List Text) (ds : List Delivery)
    → is_some (first_with_tag t ds) ≡ true
    → mem t seen ≡ false
    → suc (count_if (unseen (t ∷ seen)) ds) ≤ count_if (unseen seen) ds
unfolding first_with_tag
one_more_seen t seen [] h n = cc
one_more_seen t seen (d ∷ ds) h n = ground (
  arith,
  text_beq_iff d.tag t,
  text_beq_iff t d.tag,
  fewer_unseen t seen ds,
  one_more_seen t seen ds,
)

first_with_tag-tag :
    (t : Text) (ds : List Delivery) (d : Delivery) → first_with_tag t ds ≡ some d → d.tag ≡ t
unfolding first_with_tag
first_with_tag-tag t [] d h = cc
first_with_tag-tag t (e ∷ ds) d h = ground (arith, text_beq_iff e.tag t, first_with_tag-tag t ds d)

module _ (words : Words) (s : Scenario) where
  -- A parent that the scenario delivers.
  abbrev delivered : Option Delivery → Bool
  delivered none = true
  delivered (some p) = is_some (first_with_tag p.tag s.deliveries)

  delivered_found : (t : Text) → delivered (delivery_for s t) ≡ true
  unfolding delivery_for
  delivered_found t = elim (Option-cases (first_with_tag t s.deliveries)) [
    | inl e ↦ ground arith
    | inr (d, e) ↦ ground (arith, first_with_tag-tag t s.deliveries d e)
  ]

  delivered_named : (o : Option Text) → delivered (parent_named s o) ≡ true
  delivered_named none = refl
  delivered_named (some t) = delivered_found t

  delivered_parent : (t : Text) → delivered (parent_of s t) ≡ true
  unfolding parent_of
  delivered_parent t = elim (Option-cases (delivery_for s t)) [
    | inl e ↦ ground arith
    | inr (d, e) ↦ ground (arith, delivered_named d.in_reply_to_tag)
  ]

  ancestors_enough :
      (f g : ℕ) (seen : List Text) (p : Option Delivery)
      → delivered p ≡ true
      → count_if (unseen seen) s.deliveries ≤ f
      → count_if (unseen seen) s.deliveries ≤ g
      → ancestors words s f seen p ≡ ancestors words s g seen p
  unfolding ancestors
  ancestors_enough f g seen none h i j = ground arith
  ancestors_enough zero zero seen (some p) h i j = refl
  ancestors_enough zero (suc g) seen (some p) h i j =
      ground (arith, one_more_seen p.tag seen s.deliveries h)
  ancestors_enough (suc f) zero seen (some p) h i j =
      ground (arith, one_more_seen p.tag seen s.deliveries h)
  ancestors_enough (suc f) (suc g) seen (some p) h i j = ground (
    arith,
    one_more_seen p.tag seen s.deliveries h,
    ancestors_enough f g (p.tag ∷ seen) (parent_of s p.tag) (delivered_parent p.tag),
  )

  -- With as many rounds as there are deliveries, or more, the loop gives what ancestry_of gives.
  pub ancestors-ancestry_of :
      (fuel : ℕ) (tag : Text)
      → length s.deliveries ≤ fuel
      → ancestors words s fuel (tag ∷ []) (parent_of s tag) ≡ ancestry_of words s tag
  unfolding ancestry_of
  ancestors-ancestry_of fuel tag h =
      let few = count-le-length (unseen (tag ∷ [])) s.deliveries in
      ancestors_enough fuel (length s.deliveries) (tag ∷ []) (parent_of s tag)
        (delivered_parent tag) (omega (arith, few)) few
