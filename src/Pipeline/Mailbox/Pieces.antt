-- ===== src/Pipeline/Mailbox/Pieces.antt =====
-- Reading a sink in pieces.
use testing_hq.Prelude.{
  ℕ, ◌≡◌, ◌⊎◌, inl, inr, refl, sym, ap, ◌∙◌, Bool, true, false, ◌&&◌, Option, none, some, List, [],
  ◌∷◌, ◌++◌, arith, is_empty, nat_beq, on_if,
}
use testing_hq.Prelude.Text.{Text}
use testing_hq.Pipeline.Mailbox.{
  LineError, not_valid_json, not_an_object, Line, blank, no_json, other_json, object, Mailbox,
  first_longer, split_lines, add_record, skip_line, last_line, consume_lines, warn, then_warn,
  consume,
}

longer-append :
    (x : ℕ) (ls ys : List (List ℕ))
    → is_empty ls ≡ false
    → first_longer x (ls ++ ys) ≡ first_longer x ls ++ ys
longer-append x [] ys h = cc
longer-append x (l ∷ ls) ys h = refl

longer_filled : (x : ℕ) (ls : List (List ℕ)) → is_empty (first_longer x ls) ≡ false
longer_filled x [] = refl
longer_filled x (l ∷ ls) = refl

split_lines_filled : (a : List ℕ) → is_empty (split_lines a) ≡ false
unfolding split_lines
split_lines_filled [] = refl
split_lines_filled (x ∷ a) =
    on_if (λ (ls : List (List ℕ)). is_empty ls ≡ false) (nat_beq x 10) (λ h. refl)
      (λ h. longer_filled x (split_lines a))

split_lines-cut : (a b : List ℕ) → split_lines (a ++ 10 ∷ b) ≡ split_lines a ++ split_lines b
unfolding split_lines
split_lines-cut [] b = refl
split_lines-cut (x ∷ a) b = ground (
  arith,
  split_lines-cut a b,
  longer-append x (split_lines a) (split_lines b) (split_lines_filled a),
)

module _ {R : Type 0} (read_line : List ℕ → Line R) (tag_of : R → Option Text)
    (warn_lines : ℕ) where
  abbrev pub loop : Bool → List (List ℕ) → Mailbox R → Option LineError × Mailbox R
  loop is_first lines m = consume_lines read_line tag_of warn_lines is_first lines m

  -- Going on, unless a line was refused.
  abbrev pub and_then :
      Option LineError × Mailbox R
      → (Mailbox R → Option LineError × Mailbox R)
      → Option LineError × Mailbox R
  and_then (none, m) k = k m
  and_then (some e, m) k = (some e, m)

  line_closed :
      (lines : List (List ℕ)) (is_first : Bool) (m : Mailbox R)
      → m.open_line ≡ false
      → loop is_first lines m ≡ loop true lines m
  unfolding consume_lines
  line_closed [] f m h = refl
  line_closed (line ∷ []) f m h = refl
  line_closed (line ∷ next ∷ rest) f m h = ground (arith, h)

  -- A line in front, with what follows it in one piece or in two.
  with_line :
      (l y : List ℕ) (ys : List (List ℕ)) (z : List ℕ) (zs : List (List ℕ))
      (k : Mailbox R → Option LineError × Mailbox R)
      → ((m : Mailbox R)
          → m.open_line ≡ false
          → loop false (y ∷ ys) m ≡ and_then (loop false (z ∷ zs) m) k)
      → (is_first : Bool) (m : Mailbox R)
      → loop is_first (l ∷ y ∷ ys) m ≡ and_then (loop is_first (l ∷ z ∷ zs) m) k
  unfolding consume_lines skip_line add_record
  with_line l y ys z zs k ih is_first m = by_line (read_line l)
    where
      by_line :
          (x : Line R)
          → (elim x as (λ q. Option LineError × Mailbox R) [
            | blank ↦
                loop false
                  (y ∷ ys)
                  (skip_line read_line tag_of warn_lines (m.open_line && is_first) l m)
            | no_json ↦ (some not_valid_json, m)
            | other_json ↦ (some not_an_object, m)
            | object r ↦ loop false (y ∷ ys) (add_record read_line tag_of warn_lines true l r m)
          ])
            ≡ and_then
                (elim x as (λ q. Option LineError × Mailbox R) [
                  | blank ↦
                      loop false
                        (z ∷ zs)
                        (skip_line read_line tag_of warn_lines (m.open_line && is_first) l m)
                  | no_json ↦ (some not_valid_json, m)
                  | other_json ↦ (some not_an_object, m)
                  | object r ↦
                      loop false (z ∷ zs) (add_record read_line tag_of warn_lines true l r m)
                ])
                k
      by_line blank = ih (skip_line read_line tag_of warn_lines (m.open_line && is_first) l m) refl
      by_line no_json = refl
      by_line other_json = refl
      by_line (object r) = ih (add_record read_line tag_of warn_lines true l r m) refl

  nothing_left : (is_first : Bool) (m : Mailbox R) → loop is_first ([] ∷ []) m ≡ (none, m)
  unfolding consume_lines last_line
  nothing_left is_first m = refl

  two_pieces :
      (ls : List (List ℕ)) (y : List ℕ) (ys : List (List ℕ)) (is_first : Bool) (m : Mailbox R)
      → (is_first ≡ true) ⊎ (m.open_line ≡ false)
      → loop is_first (ls ++ y ∷ ys) m
        ≡ and_then (loop is_first (ls ++ [] ∷ []) m) (loop true (y ∷ ys))
  two_pieces [] y ys is_first m (inl h) =
      ap (λ b. loop b (y ∷ ys) m) h
      ∙ ap (λ r. and_then r (loop true (y ∷ ys))) (sym (nothing_left is_first m))
  two_pieces [] y ys is_first m (inr h) =
      line_closed (y ∷ ys) is_first m h
      ∙ ap (λ r. and_then r (loop true (y ∷ ys))) (sym (nothing_left is_first m))
  two_pieces (l ∷ []) y ys is_first m h =
      with_line l y ys [] [] (loop true (y ∷ ys)) (λ n q. two_pieces [] y ys false n (inr q))
        is_first m
  two_pieces (l ∷ l2 ∷ ls) y ys is_first m h =
      with_line l l2 (ls ++ y ∷ ys) l2 (ls ++ [] ∷ []) (loop true (y ∷ ys))
        (λ n q. two_pieces (l2 ∷ ls) y ys false n (inr q)) is_first m

  by_pieces :
      (ls ks : List (List ℕ)) (m : Mailbox R)
      → is_empty ks ≡ false
      → loop true (ls ++ ks) m ≡ and_then (loop true (ls ++ [] ∷ []) m) (loop true ks)
  by_pieces ls [] m h = cc
  by_pieces ls (y ∷ ys) m h = two_pieces ls y ys true m (inl refl)

  loop_in_pieces :
      (a b : List ℕ) (m : Mailbox R)
      → loop true (split_lines (a ++ 10 ∷ b)) m
        ≡ and_then (loop true (split_lines (a ++ 10 ∷ [])) m) (loop true (split_lines b))
  unfolding split_lines
  loop_in_pieces a b m =
      ap (λ ls. loop true ls m) (split_lines-cut a b)
      ∙ by_pieces (split_lines a) (split_lines b) m (split_lines_filled b)
      ∙ ap (λ ls. and_then (loop true ls m) (loop true (split_lines b)))
          (sym (split_lines-cut a []))

  -- A mailbox but for the warning about its length.
  abbrev pub quiet : Mailbox R → Mailbox R
  quiet m = record m { warned = false; warnings = [] }

  abbrev pub quietly : Option LineError × Mailbox R → Option LineError × Mailbox R
  quietly (e, m) = (e, quiet m)

  quietly-last_line :
      (line : List ℕ) (m : Mailbox R)
      → quietly (last_line read_line tag_of warn_lines line m)
        ≡ last_line read_line tag_of warn_lines line (quiet m)
  unfolding last_line add_record
  quietly-last_line line m = ground arith

  line_quietly :
      (is_first : Bool) (line : List ℕ) (rest : List (List ℕ)) (m : Mailbox R) (x : Line R)
      → read_line line ≡ x
      → ((n : Mailbox R) → quietly (loop false rest n) ≡ loop false rest (quiet n))
      → is_empty rest ≡ false
      → quietly (loop is_first (line ∷ rest) m) ≡ loop is_first (line ∷ rest) (quiet m)
  unfolding consume_lines skip_line add_record
  line_quietly f line [] m x e ih h = cc
  line_quietly f line (y ∷ ys) m blank e ih h =
      ground (arith, e, ih (skip_line read_line tag_of warn_lines (m.open_line && f) line m))
  line_quietly f line (y ∷ ys) m no_json e ih h = ground (arith, e)
  line_quietly f line (y ∷ ys) m other_json e ih h = ground (arith, e)
  line_quietly f line (y ∷ ys) m (object r) e ih h =
      ground (arith, e, ih (add_record read_line tag_of warn_lines true line r m))

  -- The loop does not read the warning.
  quietly-loop :
      (lines : List (List ℕ)) (is_first : Bool) (m : Mailbox R)
      → quietly (loop is_first lines m) ≡ loop is_first lines (quiet m)
  unfolding consume_lines
  quietly-loop [] f m = refl
  quietly-loop (line ∷ []) f m = quietly-last_line line m
  quietly-loop (line ∷ next ∷ rest) f m =
      line_quietly f line (next ∷ rest) m (read_line line) refl (quietly-loop (next ∷ rest) false)
        refl

  quiet-warn : (m : Mailbox R) → quiet (warn read_line tag_of warn_lines m) ≡ quiet m
  unfolding warn
  quiet-warn m = ground arith

  quietly-consume :
      (b : List ℕ) (m : Mailbox R)
      → quietly (consume read_line tag_of warn_lines b m) ≡ loop true (split_lines b) (quiet m)
  unfolding consume
  quietly-consume b m =
      then_quietly (loop true (split_lines b) m) ∙ quietly-loop (split_lines b) true m
    where
      then_quietly :
          (r : Option LineError × Mailbox R)
          → quietly (then_warn read_line tag_of warn_lines r) ≡ quietly r
      then_quietly (none, n) = ap (λ k. (none, k)) (quiet-warn n)
      then_quietly (some e, n) = refl

  go_on_quietly :
      (b : List ℕ) (r : Option LineError × Mailbox R)
      → quietly (and_then r (loop true (split_lines b)))
        ≡ quietly (
            and_then
              (then_warn read_line tag_of warn_lines r)
              (consume read_line tag_of warn_lines b))
  go_on_quietly b (some e, n) = refl
  go_on_quietly b (none, n) =
      quietly-loop (split_lines b) true n
      ∙ ap (loop true (split_lines b)) (sym (quiet-warn n))
      ∙ sym (quietly-consume b (warn read_line tag_of warn_lines n))

  -- Reading bytes up to a newline and then the rest, unless a line is refused, leaves the error and
  -- the mailbox that reading them at once does, but for the warning about a long sink (how often
  -- it was given, of how many lines, and whether it was).
  pub read_in_pieces :
      (a b : List ℕ) (m : Mailbox R)
      → quietly (consume read_line tag_of warn_lines (a ++ 10 ∷ b) m)
        ≡ quietly (
            and_then
              (consume read_line tag_of warn_lines (a ++ 10 ∷ []) m)
              (consume read_line tag_of warn_lines b))
  unfolding consume
  read_in_pieces a b m =
      quietly-consume (a ++ 10 ∷ b) m
      ∙ sym (quietly-loop (split_lines (a ++ 10 ∷ b)) true m)
      ∙ ap quietly (loop_in_pieces a b m)
      ∙ go_on_quietly b (loop true (split_lines (a ++ 10 ∷ [])) m)
