-- ===== src/Pipeline/Settle/Examples.antt =====
-- A store that holds one record of a message from the first lookup on, and the theorems on it.
use testing_hq.Prelude.{
  ℕ, ◌+◌, ◌<◌, ◌≡◌, ◌≢◌, refl, Bool, true, false, Option, none, some, List, [], ◌∷◌, arith, is_some,
}
use testing_hq.Prelude.Text.{Text, codes}
use testing_hq.Pipeline.Readback.{Probe, Readback, answered}
use testing_hq.Pipeline.Settle.{
  Environment, Settings, ReadbackOutcome, Returned, returned, bad_poll_interval, adapter_error,
  fuel_exhausted, read_back_all, read_back_all_ends, probes_by_tag, IsTimely,
}
use testing_hq.Pipeline.Settle.Rule.{Explained, first_world, settling_rule}

-- A world is the time. Reading the clock and a lookup take a tick each.
abbrev pub ticket_for : Probe → Readback
ticket_for p = record {
  exists = true;
  ticket_id = some (codes "T1");
  from_addr = some p.from_addr;
  subject = some p.subject;
  body = none;
  attachment_names = [];
  route = none;
  message_id = none;
  in_reply_to = none;
  references = [];
  tag = some p.tag;
  category = none;
  priority = none;
  fields = [];
  field_notes = [];
}

abbrev pub ticking : Environment
ticking = record {
  World = ℕ;
  clock = λ t. (t, t + 1);
  sleep = λ d t. t + d;
  fetch = λ p t.
      (answered (record { items = ticket_for p ∷ []; partial = false; status = some 200 }), t + 1);
  bind_clock = λ d t. t;
}

abbrev pub ticking-IsTimely : IsTimely ticking
ticking-IsTimely = record {
  time = λ t. t;
  clock_after = λ t. omega arith;
  clock_before = λ t. omega arith;
  sleep_lasts = λ d t. omega arith;
  fetch_forward = λ p t. omega arith;
  bind_forward = λ d t. omega arith;
}

abbrev pub quick : Settings
quick = record { quiet_window = 3; max_wait = 30; poll_interval = 1 }

abbrev pub probe : Probe
probe = record {
  record_id = codes "clean-7-0000";
  tag = codes "hq-7-0000";
  payload_sha256 = [];
  from_addr = codes "a@example.test";
  subject = codes "hello";
  recipient = codes "b@example.test";
  message_id = [];
  attachment_names = [];
}

-- `repr` is only asked to order records, and there is one.
abbrev pub no_repr : Readback → Text
no_repr r = []

read_back_all_ends_example : read_back_all ticking 31 quick no_repr (probe ∷ []) 0 ≢ fuel_exhausted
read_back_all_ends_example =
    read_back_all_ends ticking ticking-IsTimely 31 quick no_repr (probe ∷ []) 0 (omega arith)

abbrev pub settled_outcome : ReadbackOutcome
settled_outcome = record {
  readbacks = (probe.tag, ticket_for probe ∷ []) ∷ [];
  elapsed = 10;
  polls = 2;
  stable = true;
  missing = [];
  budget_exhausted = false;
  partial = [];
  all_404 = false;
  detail = none;
  complete_polls = 2;
  cause = none;
}

pub quick_run : read_back_all ticking 31 quick no_repr (probe ∷ []) 0 ≡ returned settled_outcome 11
unfolding read_back_all testing_hq.Pipeline.Settle.poll_once testing_hq.Prelude.Dict.contains
    testing_hq.Prelude.Dict.insert testing_hq.Pipeline.Settle.snapshot_beq
    testing_hq.Pipeline.Settle.signature testing_hq.Prelude.Sort.sort_by
    testing_hq.Prelude.Dict.lookup native.Mathlib.Decide.ℕ_discrete
quick_run = refl

settling_rule_example :
    Explained ticking ticking-IsTimely quick no_repr 30
      (probes_by_tag (probe ∷ []) [])
      (first_world ticking ticking-IsTimely quick no_repr 0)
      settled_outcome
settling_rule_example =
    settling_rule ticking ticking-IsTimely quick no_repr 31 (probe ∷ []) 0 11 settled_outcome
      quick_run
