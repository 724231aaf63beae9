-- ===== src/Pipeline/Mailbox/Agreed.antt =====
-- The index of a mailbox agrees with its records.
use testing_hq.Prelude.{
  ℕ, ◌≡◌, refl, ap, ◌∙◌, Bool, true, false, not, ◌&&◌, Option, none, some, List, [], ◌∷◌, ◌++◌, map,
  arith, keep_if, is_empty, length, ltb, nat_beq, on_if, if◌then◌else◌,
}
use testing_hq.Prelude.Text.{Text, text_beq, text_beq_iff, text_eq}
use testing_hq.Prelude.Dict.{Dict, lookup, lookup-insert}
use testing_hq.Pipeline.Mailbox.{
  File, missing, present, LineError, not_valid_json, not_an_object, Line, blank, no_json,
  other_json, object, Mailbox, or_nothing, tag_text, reset, new_mailbox, was_replaced, index_record,
  add_record, skip_line, last_line, consume_lines, warn, then_warn, split_lines, skip_bytes,
  consume, refresh, fetch_found, to_entry,
}

module _ {R : Type 0} where
  abbrev pub has_tag : Text → Option Text × R → Bool
  has_tag t e = text_beq (tag_text e.0) t

  abbrev records_of : Text → List (Option Text × R) → List R
  records_of t entries = map (λ e. e.1) (keep_if (has_tag t) entries)

  abbrev Agrees : Mailbox R → Type 0
  Agrees m =
      (t : Text) → is_empty t ≡ false → or_nothing (lookup t m.by_tag) ≡ records_of t m.records

  records_of-append :
      (t : Text) (entries : List (Option Text × R)) (tag : Option Text) (r : R)
      → records_of t (entries ++ (tag, r) ∷ []) ≡ (
          if text_beq (tag_text tag) t
          then records_of t entries ++ r ∷ []
          else records_of t entries)
  records_of-append t [] tag r = ground arith
  records_of-append t (e ∷ entries) tag r = ground (arith, records_of-append t entries tag r)

  lookup-index_record :
      (t : Text) (tag : Option Text) (r : R) (d : Dict Text (List R))
      → is_empty t ≡ false
      → or_nothing (lookup t (index_record tag r d)) ≡ (
          if text_beq (tag_text tag) t
          then or_nothing (lookup t d) ++ r ∷ []
          else or_nothing (lookup t d))
  unfolding index_record
  lookup-index_record t tag r d h = ground (
    arith,
    h,
    text_beq_iff (tag_text tag) t,
    lookup-insert (tag_text tag) t (or_nothing (lookup (tag_text tag) d) ++ r ∷ []) d,
  )

  module _ (read_line : List ℕ → Line R) (tag_of : R → Option Text) (warn_lines : ℕ) where
    add_record-Agrees :
        (terminated : Bool) (line : List ℕ) (r : R) (m : Mailbox R)
        → Agrees m
        → Agrees (add_record read_line tag_of warn_lines terminated line r m)
    unfolding add_record
    add_record-Agrees terminated line r m a t h = ground (
      arith,
      a t h,
      records_of-append t m.records (tag_of r) r,
      lookup-index_record t (tag_of r) r m.by_tag h,
    )

    reset-Agrees : (m : Mailbox R) → Agrees (reset m)
    unfolding reset lookup
    reset-Agrees m t h = refl

    line-Agrees :
        (l : Line R) (line : List ℕ) (m : Mailbox R)
        → Agrees m
        → Agrees
            (elim l as (λ y. Option LineError × Mailbox R) [
              | blank ↦ (none, m)
              | no_json ↦ (none, m)
              | other_json ↦ (some not_an_object, m)
              | object r ↦ (none, add_record read_line tag_of warn_lines false line r m)
            ]).1
    line-Agrees blank line m a = a
    line-Agrees no_json line m a = a
    line-Agrees other_json line m a = a
    line-Agrees (object r) line m a = add_record-Agrees false line r m a

    last_line-Agrees :
        (line : List ℕ) (m : Mailbox R)
        → Agrees m
        → Agrees (last_line read_line tag_of warn_lines line m).1
    unfolding last_line
    last_line-Agrees line m a =
        on_if (λ (x : Option LineError × Mailbox R). Agrees x.1) (is_empty line) (λ h. a)
          (λ h. line-Agrees (read_line line) line m a)

    skip_line-Agrees :
        (continued : Bool) (line : List ℕ) (m : Mailbox R)
        → Agrees m
        → Agrees (skip_line read_line tag_of warn_lines continued line m)
    unfolding skip_line
    skip_line-Agrees continued line m a = a

    next-Agrees :
        (l : Line R) (is_first : Bool) (line : List ℕ) (rest : List (List ℕ)) (m : Mailbox R)
        → Agrees m
        → ((n : Mailbox R)
            → Agrees n
            → Agrees (consume_lines read_line tag_of warn_lines false rest n).1)
        → Agrees
            (elim l as (λ y. Option LineError × Mailbox R) [
              | blank ↦
                  consume_lines read_line tag_of warn_lines false rest
                    (skip_line read_line tag_of warn_lines (m.open_line && is_first) line m)
              | no_json ↦ (some not_valid_json, m)
              | other_json ↦ (some not_an_object, m)
              | object r ↦
                  consume_lines read_line tag_of warn_lines false rest
                    (add_record read_line tag_of warn_lines true line r m)
            ]).1
    next-Agrees blank is_first line rest m a k =
        k (skip_line read_line tag_of warn_lines (m.open_line && is_first) line m)
          (skip_line-Agrees (m.open_line && is_first) line m a)
    next-Agrees no_json is_first line rest m a k = a
    next-Agrees other_json is_first line rest m a k = a
    next-Agrees (object r) is_first line rest m a k =
        k (add_record read_line tag_of warn_lines true line r m) (add_record-Agrees true line r m a)

    consume_lines-Agrees :
        (is_first : Bool) (lines : List (List ℕ)) (m : Mailbox R)
        → Agrees m
        → Agrees (consume_lines read_line tag_of warn_lines is_first lines m).1
    unfolding consume_lines
    consume_lines-Agrees is_first [] m a = a
    consume_lines-Agrees is_first (line ∷ []) m a = last_line-Agrees line m a
    consume_lines-Agrees is_first (line ∷ next ∷ rest) m a =
        next-Agrees (read_line line) is_first line (next ∷ rest) m a
          (λ n b. consume_lines-Agrees false (next ∷ rest) n b)

    warn-Agrees :
        (x : Option LineError × Mailbox R)
        → Agrees x.1
        → Agrees (then_warn read_line tag_of warn_lines x).1
    unfolding warn
    warn-Agrees (none, m) a =
        on_if Agrees (ltb warn_lines m.line_no && not m.warned) (λ h. a) (λ h. a)
    warn-Agrees (some e, m) a = a

    consume-Agrees :
        (chunk : List ℕ) (m : Mailbox R)
        → Agrees m
        → Agrees (consume read_line tag_of warn_lines chunk m).1
    unfolding consume
    consume-Agrees chunk m a =
        warn-Agrees (consume_lines read_line tag_of warn_lines true (split_lines chunk) m)
          (consume_lines-Agrees true (split_lines chunk) m a)

    refresh-Agrees :
        (f : File) (m : Mailbox R) → Agrees m → Agrees (refresh read_line tag_of warn_lines f m).1
    unfolding refresh
    refresh-Agrees missing m a = on_if Agrees (nat_beq m.offset 0) (λ h. a) (λ h. reset-Agrees m)
    refresh-Agrees (present identity mtime bytes) m a =
        on_if (λ (x : Option LineError × Mailbox R). Agrees x.1)
          (nat_beq (length bytes) seen.offset) (λ h. kept)
          (λ h. consume-Agrees (skip_bytes seen.offset bytes) seen kept)
      where
        seen : Mailbox R
        seen = record (if was_replaced m identity mtime (length bytes) then reset m else m) {
          identity = some identity;
          mtime = some mtime;
        }

        kept : Agrees (if was_replaced m identity mtime (length bytes) then reset m else m)
        kept =
            on_if Agrees (was_replaced m identity mtime (length bytes)) (λ h. reset-Agrees m)
              (λ h. a)

    -- What a mailbox is behind some refreshes, of whatever the file held then.
    abbrev pub behind : List File → Mailbox R
    behind [] = new_mailbox
    behind (f ∷ files) = (refresh read_line tag_of warn_lines f (behind files)).1

    behind-Agrees : (files : List File) → Agrees (behind files)
    unfolding lookup
    behind-Agrees [] t h = refl
    behind-Agrees (f ∷ files) t h = refresh-Agrees f (behind files) (behind-Agrees files) t h

    module _ {B : Type 0} (to_readback : R → Text → B) where
      tagged_entries :
          (t : Text) (entries : List (Option Text × R))
          → map (λ r. to_readback r t) (records_of t entries)
            ≡ map (to_entry to_readback) (keep_if (has_tag t) entries)
      tagged_entries t [] = refl
      tagged_entries t (e ∷ entries) =
          ground (arith, text_beq_iff (tag_text e.0) t, tagged_entries t entries)

      -- Whatever the sink held when it was read, and even where a line of it was refused, a lookup of a tag
      -- that is not empty finds what the listing gives for the records with this tag, in the same order.
      pub fetch_found-list_found :
          (files : List File) (t : Text)
          → is_empty t ≡ false
          → fetch_found to_readback t (behind files)
            ≡ map (to_entry to_readback) (keep_if (has_tag t) (behind files).records)
      unfolding fetch_found
      fetch_found-list_found files t h =
          ap (λ rs. map (λ r. to_readback r t) rs) (behind-Agrees files t h)
          ∙ tagged_entries t (behind files).records
