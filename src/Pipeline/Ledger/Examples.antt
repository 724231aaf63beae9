-- ===== src/Pipeline/Ledger/Examples.antt =====
-- Small ledgers, and the theorems at them.
use testing_hq.Prelude.{
  ℕ, ◌+◌, ◌≡◌, ◌↔◌, ◌≤◌, ◌⊎◌, inl, inr, refl, Bool, true, false, not, ◌&&◌, Option, none, some,
  List, [], ◌∷◌, ◌++◌, length, all, is_empty, count_if, In, nat_beq,
}
use testing_hq.Prelude.Text.{Text, codes, text_beq}
use testing_hq.Prelude.Dict.{Dict}
use testing_hq.Prelude.Int.{pos, negsuc}
use testing_hq.Prelude.Decimal.{is_decimal}
use testing_hq.Core.ExitCodes.{exit_ok}
use testing_hq.Pipeline.Strings.{Strings, HasDigits}
use testing_hq.Pipeline.Readback.{Readback}
use testing_hq.Pipeline.Messages.{make_tag, made}
use testing_hq.Pipeline.Settle.{ReadbackOutcome, Returned, returned}
use testing_hq.Pipeline.Settle.Examples.{
  ticking, ticking-IsTimely, quick, probe, no_repr, ticket_for, settled_outcome,
}
use testing_hq.Pipeline.Ledger.Tags.{
  Family, one_prefix, many_prefixes, prefixes, dash, minted_by, in_family,
}
use testing_hq.Pipeline.Ledger.Account.{SentMessage, Grader, Obtained, account}
use testing_hq.Pipeline.Ledger.Enumerate.{Lister, undeclared, listed, Reason}
use testing_hq.Pipeline.Ledger.Verdict.{report_on, code_of, reconcile}
use testing_hq.Pipeline.Ledger.Partition.{Listed, right, account-lists}
use testing_hq.Pipeline.Ledger.Balance.{no_strays, balanced_iff}
use testing_hq.Pipeline.Ledger.Exit.{Says, AllAccounted, verdict-Says, exit_ok_iff}
use testing_hq.Pipeline.Ledger.Run.{Proven, exit_ok_means}
use testing_hq.Pipeline.Ledger.Longest.{LongestOf, minted_by_longest}
use testing_hq.Pipeline.Ledger.OwnTags.{make_tag-in_family}

-- Plain ASCII text without surrounding space.
abbrev plain : Strings
plain = record {
  strip = λ t. t;
  lower = λ t. t;
  split_lines = λ t. t ∷ [];
  is_digit = is_decimal;
  is_space = λ c. nat_beq c 32;
}

abbrev plain-HasDigits : HasDigits plain
plain-HasDigits = record { decimal_is_digit = λ c h. h }

-- The payload of a message is its subject, which its record must have.
abbrev same_subject : SentMessage Text → List Readback → Bool
same_subject m [] = false
same_subject m (r ∷ rs) = elim r.subject [ none ↦ false | some s ↦ text_beq s m.email ]

abbrev by_subject : Grader Text
by_subject = record { passed = same_subject; mismatch_strings = λ m rs. codes "subject" ∷ [] }

abbrev message : SentMessage Text
message = record {
  record_id = codes "clean-7-0000";
  tag = codes "hq-7-0000";
  email = codes "hello";
  delivered = true;
  status = some 200;
}

abbrev lost : SentMessage Text
lost = record {
  record_id = codes "clean-7-0001";
  tag = codes "hq-7-0001";
  email = codes "hello";
  delivered = true;
  status = some 200;
}

abbrev hq : Family
hq = one_prefix (codes "hq")

abbrev stored : Dict Text (List Readback)
stored = (probe.tag, ticket_for probe ∷ []) ∷ []

-- The store lists the record of the message, and nothing else.
abbrev lister : Lister
lister = record {
  enumerate_off = false;
  declared = undeclared;
  list_all = some (listed (ticket_for probe ∷ []) false);
}

abbrev say : Reason → Text
say r = []

abbrev how : Obtained
how = record {
  strays_reason = none;
  strays_partial = false;
  unsettled = false;
  readback_failed = false;
}

account-lists_example :
    Listed by_subject stored
      (message ∷ lost ∷ [])
      how
      (account plain by_subject (message ∷ lost ∷ []) stored none hq how)
account-lists_example = account-lists plain by_subject (message ∷ lost ∷ []) stored none hq how

balanced_iff_example :
    ((account plain by_subject (message ∷ []) stored (some (ticket_for probe ∷ [])) hq how).balanced
      ≡ true)
    ↔ ((how.unsettled ≡ false)
        × (how.readback_failed ≡ false)
        × (all (right by_subject stored) (message ∷ []) ≡ true)
        × (no_strays by_subject plain (message ∷ []) stored hq (some (ticket_for probe ∷ [])) false
            ≡ true))
balanced_iff_example =
    balanced_iff plain by_subject (message ∷ []) stored (some (ticket_for probe ∷ [])) hq how

verdict-Says_example :
    let r = report_on plain by_subject say (message ∷ lost ∷ []) hq lister settled_outcome in
    Says settled_outcome r.exit_code r.summary_verdict
verdict-Says_example =
    verdict-Says plain by_subject say (message ∷ lost ∷ []) hq lister settled_outcome

exit_ok_iff_example :
    ((report_on plain by_subject say (message ∷ []) hq lister settled_outcome).exit_code ≡ exit_ok)
    ↔ AllAccounted plain by_subject (message ∷ []) hq lister settled_outcome
exit_ok_iff_example = exit_ok_iff plain by_subject say (message ∷ []) hq lister settled_outcome

the_code :
    code_of (
      reconcile plain by_subject say ticking 31 quick no_repr
        (message ∷ [])
        (probe ∷ [])
        hq
        (λ w. lister)
        0)
    ≡ exit_ok
unfolding reconcile testing_hq.Pipeline.Settle.poll_once testing_hq.Prelude.Dict.contains
    testing_hq.Prelude.Dict.insert testing_hq.Pipeline.Settle.snapshot_beq
    testing_hq.Pipeline.Settle.signature testing_hq.Prelude.Sort.sort_by
    testing_hq.Prelude.Dict.lookup native.Mathlib.Decide.ℕ_discrete
the_code = refl

exit_ok_means_example :
    Proven plain by_subject say
      (message ∷ [])
      hq
      ticking
      ticking-IsTimely
      quick
      no_repr
      (probe ∷ [])
      (λ w. lister)
      0
exit_ok_means_example =
    exit_ok_means plain by_subject say (message ∷ []) hq ticking ticking-IsTimely quick no_repr
      (probe ∷ []) (λ w. lister) 31 0 the_code

-- Two prefixes of which one begins with the other.
abbrev nested : Family
nested = many_prefixes (codes "hq" ∷ codes "hq-9" ∷ [])

the_minter : minted_by plain (codes "hq-9--7-0001") nested ≡ some (codes "hq-9")
unfolding minted_by testing_hq.Prelude.Sort.sort_by testing_hq.Prelude.Text.strip_prefix
    testing_hq.Pipeline.Ledger.Tags.tag_tail
the_minter = refl

minted_by_longest_example : LongestOf plain (codes "hq-9--7-0001") (prefixes nested) (codes "hq-9")
minted_by_longest_example =
    minted_by_longest plain (codes "hq-9--7-0001") nested (codes "hq-9") the_minter

the_tag_made : make_tag (codes "hq") (negsuc 6) (pos 12) ≡ made (codes "hq--7-0012")
unfolding make_tag testing_hq.Prelude.Decimal.decimal testing_hq.Prelude.Decimal.padded
the_tag_made = refl

hq_given : In (codes "hq") (prefixes hq)
unfolding prefixes
hq_given = inl refl

make_tag-in_family_example : in_family plain (codes "hq--7-0012") hq ≡ true
make_tag-in_family_example =
    make_tag-in_family plain plain-HasDigits (codes "hq") (codes "hq--7-0012") (negsuc 6) (pos 12)
      hq the_tag_made hq_given
