-- ===== src/Prelude/TextOrder.antt =====
-- The order of Python's `str`, and sets of texts that are read in order.
use mathlib.Core.Path.{◌≡◌, refl, ap, ap₂, subst, sym, ◌∙◌}
use mathlib.Core.Logic.{◌⊎◌, ◌↔◌, inl, inr}
use mathlib.Core.Bool.{Bool, true, false}
use mathlib.Core.List.{List, [], ◌∷◌}
use native.Mathlib.Omega.{arith}
use testing_hq.Prelude.Tests.{ltb, nat_beq, if◌then◌else◌}
use testing_hq.Prelude.Text.{Text, text_eq, text_beq, text_beq_iff}
use testing_hq.Prelude.Distinct.{mem}

-- Python's `<=` on texts: lexicographic, by code points.
unfoldable pub text_leb : Text → Text → Bool
text_leb [] t = true
text_leb (c ∷ s) [] = false
text_leb (c ∷ s) (d ∷ t) = if ltb c d then true else if nat_beq c d then text_leb s t else false

pub text_leb_total : (s t : Text) → (text_leb s t ≡ true) ⊎ (text_leb t s ≡ true)
unfolding text_leb
text_leb_total [] t = inl refl
text_leb_total (c ∷ s) [] = inr refl
text_leb_total (c ∷ s) (d ∷ t) = ground (arith, text_leb_total s t)

pub text_leb_antisymm : (s t : Text) → text_leb s t ≡ true → text_leb t s ≡ true → s ≡ t
unfolding text_leb
text_leb_antisymm [] [] h k = refl
text_leb_antisymm [] (d ∷ t) h k = cc
text_leb_antisymm (c ∷ s) [] h k = cc
text_leb_antisymm (c ∷ s) (d ∷ t) h k = ground (arith, text_leb_antisymm s t)

pub text_leb_trans :
    (s t u : Text) → text_leb s t ≡ true → text_leb t u ≡ true → text_leb s u ≡ true
unfolding text_leb
text_leb_trans [] t u h k = refl
text_leb_trans (c ∷ s) [] u h k = cc
text_leb_trans (c ∷ s) (d ∷ t) [] h k = cc
text_leb_trans (c ∷ s) (d ∷ t) (x ∷ u) h k = ground (arith, text_leb_trans s t u)

-- Adding to a set that is kept in order.
unfoldable pub add_text : Text → List Text → List Text
unfolding text_leb
add_text t [] = t ∷ []
add_text t (s ∷ ss) =
    let rest = add_text t ss in
    if text_beq t s then s ∷ ss else if text_leb t s then t ∷ s ∷ ss else s ∷ rest

-- sorted(set(ts))
unfoldable pub sorted_set : List Text → List Text
unfolding add_text
sorted_set [] = []
sorted_set (t ∷ ts) = add_text t (sorted_set ts)

pub mem-add_text :
    (x t : Text) (ss : List Text)
    → mem x (add_text t ss) ≡ (if text_beq t x then true else mem x ss)
unfolding add_text
mem-add_text x t [] = refl
mem-add_text x t (s ∷ ss) =
    ground (arith, mem-add_text x t ss, text_beq_iff t s, text_beq_iff s x, text_beq_iff t x)

pub mem-sorted_set : (x : Text) (ts : List Text) → mem x (sorted_set ts) ≡ mem x ts
unfolding sorted_set
mem-sorted_set x [] = refl
mem-sorted_set x (t ∷ ts) = ground (arith, mem-add_text x t (sorted_set ts), mem-sorted_set x ts)

-- Every text of the list is above `t`.
abbrev Above : Text → List Text → Type 0
Above t [] = Unit
Above t (s ∷ ss) = (text_leb t s ≡ true) × (text_beq t s ≡ false) × Above t ss

abbrev pub Ascending : List Text → Type 0
Ascending [] = Unit
Ascending (s ∷ ss) = Above s ss × Ascending ss

Above-add_text :
    (u t : Text) (ss : List Text)
    → text_leb u t ≡ true
    → text_beq u t ≡ false
    → Above u ss
    → Above u (add_text t ss)
unfolding add_text
Above-add_text u t [] l n h = (l, n, tt)
Above-add_text u t (s ∷ ss) l n h = ground (arith, Above-add_text u t ss)

Above-trans :
    (t s : Text) (ss : List Text)
    → text_leb t s ≡ true
    → text_beq t s ≡ false
    → Above s ss
    → Above t ss
Above-trans t s [] l n h = tt
Above-trans t s (u ∷ ss) l n h = ground (
  arith,
  text_leb_trans t s u,
  text_beq_iff t u,
  text_beq_iff t s,
  text_leb_antisymm t s,
  Above-trans t s ss l n,
)

add_text-Ascending : (t : Text) (ss : List Text) → Ascending ss → Ascending (add_text t ss)
unfolding add_text
add_text-Ascending t [] h = (tt, tt)
add_text-Ascending t (s ∷ ss) h = ground (
  arith,
  add_text-Ascending t ss,
  text_leb_total t s,
  text_beq_iff t s,
  text_beq_iff s t,
  Above-add_text s t ss,
  Above-trans t s ss,
)

pub sorted_set-Ascending : (ts : List Text) → Ascending (sorted_set ts)
unfolding sorted_set
sorted_set-Ascending [] = tt
sorted_set-Ascending (t ∷ ts) = add_text-Ascending t (sorted_set ts) (sorted_set-Ascending ts)

Above-mem :
    (t x : Text) (ss : List Text)
    → Above t ss
    → mem x ss ≡ true
    → (text_leb t x ≡ true) × (text_beq t x ≡ false)
Above-mem t x [] h m = cc
Above-mem t x (s ∷ ss) h m = ground (arith, Above-mem t x ss, text_beq_iff s x)

head_eq :
    (s t : Text) (ss ts : List Text)
    → Ascending (s ∷ ss)
    → Ascending (t ∷ ts)
    → mem s (t ∷ ts) ≡ true
    → mem t (s ∷ ss) ≡ true
    → s ≡ t
head_eq s t ss ts hs ht ms mt = ground (
  arith,
  Above-mem t s ts,
  Above-mem s t ss,
  text_leb_antisymm s t,
  text_beq_iff s t,
  text_beq_iff t s,
)

mem_head : (t : Text) (ts : List Text) → mem t (t ∷ ts) ≡ true
mem_head t ts = ground (arith, text_beq_iff t t)

mem_tail :
    (t x : Text) (ss ts : List Text)
    → Above t ss
    → Above t ts
    → mem x (t ∷ ss) ≡ mem x (t ∷ ts)
    → mem x ss ≡ mem x ts
mem_tail t x ss ts hs ht e =
    ground (arith, Above-mem t x ss hs, Above-mem t x ts ht, text_beq_iff t x)

-- Two ascending lists with the same members are the same list.
pub Ascending-ext :
    (ss ts : List Text) → Ascending ss → Ascending ts → ((x : Text) → mem x ss ≡ mem x ts) → ss ≡ ts
Ascending-ext [] [] hs ht e = refl
Ascending-ext [] (t ∷ ts) hs ht e = cc (e t, mem_head t ts)
Ascending-ext (s ∷ ss) [] hs ht e = cc (e s, mem_head s ss)
Ascending-ext (s ∷ ss) (t ∷ ts) hs ht e =
    let same = head_eq s t ss ts hs ht (sym (e s) ∙ mem_head s ss) (e t ∙ mem_head t ts) in
    let ht' = subst (λ u. Above u ts) (sym same) ht.0 in
    let e' = λ (x : Text). e x ∙ ap (λ u. mem x (u ∷ ts)) (sym same) in
    ap₂ (λ u us. u ∷ us) same
      (Ascending-ext ss ts hs.1 ht.1 (λ x. mem_tail s x ss ts hs.0 ht' (e' x)))

-- Two sorted sets are equal if and only if their lists have the same members.
pub sorted_set_iff :
    (ss ts : List Text) → (sorted_set ss ≡ sorted_set ts) ↔ ((x : Text) → mem x ss ≡ mem x ts)
sorted_set_iff ss ts = (
  (λ e x. sym (mem-sorted_set x ss) ∙ ap (mem x) e ∙ mem-sorted_set x ts),
  (λ e.
      Ascending-ext (sorted_set ss) (sorted_set ts) (sorted_set-Ascending ss)
        (sorted_set-Ascending ts) (λ x. mem-sorted_set x ss ∙ e x ∙ sym (mem-sorted_set x ts))),
)
