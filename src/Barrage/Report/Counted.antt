-- ===== src/Barrage/Report/Counted.antt =====
-- What the status classes of a report add up to.
use testing_hq.Prelude.{
  ℕ, suc, ◌+◌, ◌≡◌, refl, Bool, true, false, Option, none, some, List, [], ◌∷◌, arith, keep_if,
  count_if, leb, if◌then◌else◌,
}
use testing_hq.Barrage.Report.{
  Sample, sent, is_shed, is_error, StatusClass, c5xx, no_response, class_of, status_class, Classes,
  no_classes, add_class, classes_from, status_classes, error_rate,
}

abbrev pub total : Classes → ℕ
total c = c.n1xx + (c.n2xx + (c.n3xx + (c.n4xx + (c.n5xx + c.unanswered))))

abbrev is_unanswered : StatusClass → Bool
is_unanswered no_response = true
is_unanswered _ = false

abbrev is_5xx_class : StatusClass → Bool
is_5xx_class c5xx = true
is_5xx_class _ = false

abbrev one_if : Bool → ℕ
one_if b = if b then 1 else 0

total-add_class :
    (k : StatusClass) (c : Classes)
    → (total (add_class k c) ≡ suc (total c))
      × (((add_class k c).unanswered ≡ one_if (is_unanswered k) + c.unanswered)
          × ((add_class k c).n5xx ≡ one_if (is_5xx_class k) + c.n5xx))
unfolding add_class
total-add_class k c = ground arith

class_of_5xx : (n : ℕ) → is_5xx_class (class_of n) ≡ leb 500 n
unfolding class_of
class_of_5xx n = ground arith

class_of_answered : (n : ℕ) → is_unanswered (class_of n) ≡ false
unfolding class_of
class_of_answered n = ground arith

-- A sent request is an error in one of three ways.
error_kinds :
    (s : Sample) (o : Option ℕ)
    → s.status ≡ o
    → sent s ≡ true
    → one_if (is_error s)
      ≡ one_if (is_unanswered (status_class s))
        + (one_if (is_5xx_class (status_class s)) + one_if (is_shed s))
unfolding is_error is_shed status_class
error_kinds s none e h = ground (arith)
error_kinds s (some n) e h = ground (arith, class_of_5xx n, class_of_answered n)

classes-add :
    (c : Classes) (samples : List Sample)
    → (total (classes_from c samples) ≡ total c + count_if sent samples)
      × (count_if is_error (keep_if sent samples) + (c.unanswered + c.n5xx)
          ≡ (classes_from c samples).unanswered
            + ((classes_from c samples).n5xx + count_if is_shed (keep_if sent samples)))
unfolding classes_from
classes-add c [] = (omega arith, omega arith)
classes-add c (s ∷ rest) = ground (
  arith,
  error_kinds s s.status refl,
  total-add_class (status_class s) c,
  classes-add (if sent s then add_class (status_class s) c else c) rest,
)

-- The status classes of a list of samples add up to the samples that were sent, and the errors among
-- those are the ones without a response, the ones with a 5xx, and the ones with a 429.
pub classes_add_up :
    (samples : List Sample)
    → (total (status_classes samples) ≡ count_if sent samples)
      × ((error_rate samples).0
          ≡ (status_classes samples).unanswered
            + ((status_classes samples).n5xx + count_if is_shed (keep_if sent samples)))
unfolding error_rate
classes_add_up samples = ground (arith, classes-add no_classes samples)
