-- ===== src/Pipeline/Settle/Watch.antt =====
-- What `read_back_all` keeps about the complete polls: `previous`, `previous_start`,
-- `quiet_since`, `changed`, `first_poll_s`, `complete` and `stable`. Times are whole ticks. A
-- difference of two readings that the code compares with a span is written as a sum.
use testing_hq.Prelude.{
  ℕ, ◌+◌, ◌-◌, Bool, true, false, Option, none, some, List, leb, is_some, if◌then◌else◌,
}
use testing_hq.Pipeline.Readback.{Readback, Readback-discrete}

-- The signatures of all tags, in the order in which they are asked.
abbrev pub Snapshot : Type 0
Snapshot = List (List Readback)

pub Snapshot-discrete : Discrete Snapshot
Snapshot-discrete = hlevel Readback-discrete

unfoldable pub snapshot_beq : Snapshot → Snapshot → Bool
unfolding Snapshot-discrete Readback-discrete
snapshot_beq a b = elim (Snapshot-discrete a b) [ yes e ↦ true | no n ↦ false ]

-- A complete poll: when it began, when it ended, and what it saw.
pub record Poll : Type 0 where
  pub start : ℕ
  pub finish : ℕ
  pub seen : Snapshot

pub record Watch : Type 0 where
  pub previous : Option Snapshot
  pub previous_start : Option ℕ
  pub quiet_since : Option ℕ
  pub changed : Bool
  pub first_poll : Option ℕ
  pub complete : ℕ
  pub stable : Bool

abbrev pub unwatched : Watch
unwatched = record {
  previous = none;
  previous_start = none;
  quiet_since = none;
  changed = false;
  first_poll = none;
  complete = 0;
  stable = false;
}

-- signature == previous
abbrev pub same_as : Option Snapshot → Snapshot → Bool
same_as none seen = false
same_as (some p) seen = snapshot_beq seen p

-- Whether a span has passed since a time that may be None.
abbrev pub passed : Option ℕ → ℕ → ℕ → Bool
passed none window now = false
passed (some t) window now = leb (t + window) now

abbrev pub or_else : Option ℕ → Option ℕ → Option ℕ
or_else none b = b
or_else (some a) b = some a

-- The bookkeeping after a complete poll.
unfoldable pub observe : ℕ → Poll → Watch → Watch
observe window p w =
    let since = or_else w.quiet_since w.previous_start in
    let first = or_else w.first_poll (some (p.finish - p.start)) in
    if same_as w.previous p.seen
    then (if passed since window p.finish
        then record w {
          quiet_since = since;
          first_poll = first;
          complete = w.complete + 1;
          stable = true;
        }
        else record w {
          previous = some p.seen;
          previous_start = some p.start;
          quiet_since = since;
          first_poll = first;
          complete = w.complete + 1;
        })
    else record w {
      previous = some p.seen;
      previous_start = some p.start;
      quiet_since = none;
      changed = (if is_some w.previous then true else w.changed);
      first_poll = first;
      complete = w.complete + 1;
    }
