-- ===== src/Pipeline/Verify/Examples.antt =====
-- A message and the record of it, graded by the content checks.
use testing_hq.Prelude.{
  ℕ, ◌+◌, ◌≡◌, ◌↔◌, refl, Bool, true, false, Option, none, some, List, [], ◌∷◌, map, length, all,
  count_if, nat_beq,
}
use testing_hq.Prelude.Text.{Text, text_eq, codes}
use testing_hq.Prelude.Dict.{Dict}
use testing_hq.Prelude.Decimal.{is_decimal}
use testing_hq.Core.ExitCodes.{exit_ok}
use testing_hq.Pipeline.Strings.{Strings}
use testing_hq.Pipeline.Readback.{Readback}
use testing_hq.Pipeline.Readback.Normalize.{Words, clean_names}
use testing_hq.Pipeline.Settle.Examples.{probe, ticket_for, settled_outcome}
use testing_hq.Pipeline.Expectations.Expected.{
  InboundEmail, MatchOptions, Expectations, contains_subject, exact_names, loose_names, from_email,
}
use testing_hq.Pipeline.Expectations.Values.{Patterns, loose_attachment_key, times_in}
use testing_hq.Pipeline.Expectations.Checks.{CheckResult, attachments_ok}
use testing_hq.Pipeline.Expectations.Evaluate.{evaluate_sequence, passed}
use testing_hq.Pipeline.Expectations.Graded.{sole_agrees, passed-evaluate_sequence}
use testing_hq.Pipeline.Ledger.Tags.{one_prefix}
use testing_hq.Pipeline.Ledger.Account.{SentMessage}
use testing_hq.Pipeline.Ledger.Content.{content_grader}
use testing_hq.Pipeline.Ledger.Enumerate.{Lister, undeclared, listed, Reason}
use testing_hq.Pipeline.Ledger.Verdict.{report_on}
use testing_hq.Pipeline.Verify.{verify_code}
use testing_hq.Pipeline.Verify.Theorems.{agreed, verify_code_iff}
use testing_hq.Pipeline.Verify.WithLedger.{ledger_ok-verify_ok}

-- Texts that are in their comparable form already.
abbrev pub plain_words : Words
plain_words = record {
  nfkc = λ t. t;
  fold_space = λ t. t;
  strip = λ t. t;
  strip_angles = λ t. t;
  casefold = λ t. t;
  lower = λ t. t;
  split = λ t. t ∷ [];
  get_addresses = λ t. t ∷ [];
}

abbrev pub plain_patterns : Patterns
plain_patterns = record {
  angle_address = λ t. none;
  has_html_tag = λ t. false;
  drop_elements = λ t. t;
  break_lines = λ t. t;
  drop_tags = λ t. t;
  unescape = λ t. t;
  drop_symbols = λ t. t;
}

abbrev pub plain_strings : Strings
plain_strings = record {
  strip = λ t. t;
  lower = λ t. t;
  split_lines = λ t. t ∷ [];
  is_digit = is_decimal;
  is_space = λ c. nat_beq c 32;
}

abbrev pub usual : MatchOptions
usual = record {
  route = none;
  body_exact = false;
  subject_match = contains_subject;
  attachment_match = exact_names;
}

abbrev pub payload : InboundEmail
payload = record {
  from_addr = codes "a@example.test";
  subject = codes "hello";
  body_core = codes "text";
  text = codes "text";
  filenames = codes "q3.pdf" ∷ codes "q3.pdf" ∷ [];
}

abbrev message : SentMessage InboundEmail
message = record {
  record_id = codes "clean-7-0000";
  tag = codes "hq-7-0000";
  email = record payload { filenames = [] };
  delivered = true;
  status = some 202;
}

abbrev expected : Expectations
expected = from_email payload usual

-- A record with one copy of the file.
abbrev with_file : Readback
with_file = record (ticket_for probe) { attachment_names = codes "in/q3.pdf" ∷ [] }

passed-evaluate_sequence_example :
    passed (
      evaluate_sequence plain_words plain_patterns expected (with_file ∷ []) [] (codes "hq-7-0000"))
    ≡ sole_agrees plain_words plain_patterns expected (with_file ∷ [])
passed-evaluate_sequence_example =
    passed-evaluate_sequence plain_words plain_patterns expected (with_file ∷ []) []
      (codes "hq-7-0000")

exactly : expected.attachment_match ≡ exact_names
unfolding from_email
exactly = refl

abbrev loosely : Expectations
loosely = from_email payload (record usual { attachment_match = loose_names })

by_key : loosely.attachment_match ≡ loose_names
unfolding from_email
by_key = refl

verify_code_iff_example :
    (verify_code plain_words plain_patterns usual (message ∷ []) settled_outcome ≡ exit_ok) ↔ (
      (settled_outcome.all_404 ≡ false)
      × (settled_outcome.stable ≡ true)
      × (all (agreed plain_words plain_patterns usual settled_outcome.readbacks) (message ∷ [])
          ≡ true))
verify_code_iff_example =
    verify_code_iff plain_words plain_patterns usual (message ∷ []) settled_outcome

abbrev detail : CheckResult → Text
detail c = []

abbrev say : Reason → Text
say r = []

abbrev lister : Lister
lister = record {
  enumerate_off = false;
  declared = undeclared;
  list_all = some (listed (ticket_for probe ∷ []) false);
}

the_ledger_code :
    (report_on plain_strings
      (content_grader plain_words plain_patterns usual detail)
      say
      (message ∷ [])
      (one_prefix (codes "hq"))
      lister
      settled_outcome).exit_code
    ≡ exit_ok
unfolding report_on testing_hq.Prelude.Dict.lookup content_grader
    testing_hq.Pipeline.Expectations.Checks.check_ticket_created
    testing_hq.Pipeline.Expectations.Checks.check_sender testing_hq.Pipeline.Readback.Fields.has
    testing_hq.Pipeline.Expectations.Values.sender_address from_email
    testing_hq.Pipeline.Expectations.Checks.check_subject testing_hq.Prelude.Text.has_infix
    testing_hq.Pipeline.Readback.Normalize.normalize_text testing_hq.Prelude.Text.strip_prefix
    testing_hq.Pipeline.Expectations.Checks.check_body
    testing_hq.Pipeline.Expectations.Checks.check_attachments
    testing_hq.Pipeline.Readback.Normalize.normalize_attachment_names
    testing_hq.Prelude.TextOrder.sorted_set testing_hq.Pipeline.Expectations.Checks.check_routing
the_ledger_code = refl

ledger_ok-verify_ok_example :
    verify_code plain_words plain_patterns usual (message ∷ []) settled_outcome ≡ exit_ok
ledger_ok-verify_ok_example =
    ledger_ok-verify_ok plain_words plain_patterns usual detail plain_strings say (message ∷ [])
      (one_prefix (codes "hq")) lister settled_outcome the_ledger_code
