-- ===== src/Pipeline/Messages/Marker.antt =====
-- `find_tag` finds the tag that `tag_marker` stamped.
use testing_hq.Prelude.{
  append_assoc, ℕ, ◌≡◌, refl, ap, ◌∙◌, Bool, true, false, not, none, some, [], ◌∷◌, ◌++◌, arith,
  all, is_empty, nat_beq, if◌then◌else◌,
}
use testing_hq.Prelude.Text.{Text, codes, strip_prefix-append, strip_prefix_other}
use testing_hq.Pipeline.Strings.{Strings}
use testing_hq.Pipeline.Messages.{
  marker_open, marker_close, tag_marker, partition, marked_tag, no_header, header_search, find_tag,
}

-- A text without the character `c`.
abbrev pub lacks : ℕ → Text → Bool
lacks c s = all (λ d. not (nat_beq c d)) s

partition-append : (c : ℕ) (s t : Text) → lacks c s ≡ true → partition c (s ++ c ∷ t) ≡ some (s, t)
unfolding partition
partition-append c [] t h = ground arith
partition-append c (d ∷ s) t h = ground (arith, partition-append c s t)

abbrev stamped : Text → Text → Text
stamped tag after = marker_open ++ (tag ++ marker_close ∷ after)

marked_tag_here :
    (tag after : Text)
    → is_empty tag ≡ false
    → lacks marker_close tag ≡ true
    → marked_tag (stamped tag after) ≡ some tag
unfolding marked_tag
marked_tag_here tag after g h = ground (
  arith,
  strip_prefix-append marker_open (tag ++ marker_close ∷ after),
  partition-append marker_close tag after h,
)

marked_tag_later :
    (before tag after : Text)
    → lacks 91 before ≡ true
    → is_empty tag ≡ false
    → lacks marker_close tag ≡ true
    → marked_tag (before ++ stamped tag after) ≡ some tag
unfolding marked_tag
marked_tag_later [] tag after b g h = marked_tag_here tag after g h
marked_tag_later (c ∷ before) tag after b g h = ground (
  arith,
  strip_prefix_other 91 c (codes "testinghq:") (before ++ stamped tag after),
  marked_tag_later before tag after,
)

stamped_given : (before tag after : Text) → is_empty (before ++ stamped tag after) ≡ false
stamped_given [] tag after = refl
stamped_given (c ∷ before) tag after = refl

the_marker : (b : Bool) (t m : Text) → (if b then none else some t) ≡ some m → (b ≡ false) × (m ≡ t)
the_marker true t m e = cc
the_marker false t m e = (refl, cc)

module _ (py : Strings) where
  find_tag_marked :
      (text tag : Text)
      → header_search py (py.split_lines text) ≡ no_header
      → is_empty text ≡ false
      → marked_tag text ≡ some tag
      → find_tag py (some text) ≡ some tag
  unfolding find_tag
  find_tag_marked text tag h g m = ground (arith, h, g, m)

  -- Where a text holds the marker of a tag without `]`, no `[` before it, and no header line names
  -- a tag, `find_tag` finds the tag.
  pub find_tag-tag_marker :
      (before tag after marker : Text)
      → tag_marker tag ≡ some marker
      → lacks marker_close tag ≡ true
      → lacks 91 before ≡ true
      → header_search py (py.split_lines (before ++ (marker ++ after))) ≡ no_header
      → find_tag py (some (before ++ (marker ++ after))) ≡ some tag
  unfolding tag_marker
  find_tag-tag_marker before tag after marker e h b s =
      let (g, m) = the_marker (is_empty tag) _ marker e in
      let text_is =
        ap (λ k. before ++ k)
          (ap (λ k. k ++ after) m
            ∙ append_assoc (marker_open ++ tag) (marker_close ∷ []) after
            ∙ append_assoc marker_open tag (marker_close ∷ after)) in
      find_tag_marked (before ++ (marker ++ after)) tag s
        (ap is_empty text_is ∙ stamped_given before tag after)
        (ap marked_tag text_is ∙ marked_tag_later before tag after b g h)
