-- ===== src/Pipeline/Settle/History.antt =====
-- The bookkeeping of `read_back_all` against the list of the complete polls, newest first.
use testing_hq.Prelude.{
  ℕ, ◌≡◌, ◌↔◌, refl, ap, Bool, true, false, not, ◌||◌, Option, none, some, List, [], ◌∷◌, arith,
  length, if◌then◌else◌,
}
use testing_hq.Pipeline.Settle.Watch.{
  Snapshot, Snapshot-discrete, snapshot_beq, Poll, Watch, unwatched, passed, or_else, observe,
}

pub snapshot_beq_iff : (a b : Snapshot) → (snapshot_beq a b ≡ true) ↔ (a ≡ b)
unfolding snapshot_beq
snapshot_beq_iff a b = from (Snapshot-discrete a b)
  where
    from :
        (d : Dec (a ≡ b)) → (◌≡◌ {A = Bool} (elim d [ yes e ↦ true | no n ↦ false ]) true) ↔ (a ≡ b)
    from (yes e) = ((λ h. e), (λ h. refl))
    from (no n) = ((λ h. cc), (λ h. absurd (n h)))

-- The longest run of the newest polls that saw `seen`.
abbrev pub run_of : Snapshot → List Poll → List Poll
run_of seen [] = []
run_of seen (p ∷ h) = if snapshot_beq seen p.seen then p ∷ run_of seen h else []

abbrev pub oldest_start : List Poll → Option ℕ
oldest_start [] = none
oldest_start (p ∷ h) = or_else (oldest_start h) (some p.start)

-- Since when the store has held still: the start of the first poll of the run of identical polls
-- that the newest one ends, when that run has at least two.
abbrev pub held_since : List Poll → Option ℕ
held_since [] = none
held_since (p ∷ h) = oldest_start (run_of p.seen h)

-- Two polls in a row saw different things.
abbrev pub any_change : List Poll → Bool
any_change [] = false
any_change (p ∷ []) = false
any_change (p ∷ q ∷ h) = not (snapshot_beq p.seen q.seen) || any_change (q ∷ h)

abbrev pub newest_seen : List Poll → Option Snapshot
newest_seen [] = none
newest_seen (p ∷ h) = some p.seen

abbrev pub newest_start : List Poll → Option ℕ
newest_start [] = none
newest_start (p ∷ h) = some p.start

-- The bookkeeping says of the polls what it is meant to say.
pub record Tracks (h : List Poll) (w : Watch) : Type 0 where
  pub previous_eq : w.previous ≡ newest_seen h
  pub start_eq : w.previous_start ≡ newest_start h
  pub quiet_eq : w.quiet_since ≡ held_since h
  pub changed_eq : w.changed ≡ any_change h
  pub complete_eq : w.complete ≡ length h
  pub open_eq : w.stable ≡ false

pub unwatched-Tracks : Tracks [] unwatched
unwatched-Tracks = ground arith

-- A second identical poll extends the run, or begins it.
held_since-cons :
    (p q : Poll) (h : List Poll)
    → p.seen ≡ q.seen
    → held_since (p ∷ q ∷ h) ≡ or_else (held_since (q ∷ h)) (some q.start)
held_since-cons p q h e = ground (arith, snapshot_beq_iff p.seen q.seen, ap (λ s. run_of s h) e)

pub record Observed (window : ℕ) (p : Poll) (h : List Poll) (w : Watch) : Type 0 where
  pub stable_eq : w.stable ≡ passed (held_since (p ∷ h)) window p.finish
  pub quiet_eq : w.quiet_since ≡ held_since (p ∷ h)
  pub changed_eq : w.changed ≡ any_change (p ∷ h)
  pub complete_eq : w.complete ≡ length (p ∷ h)
  pub go_on : w.stable ≡ false → Tracks (p ∷ h) w

pub observe-Observed :
    (window : ℕ) (p : Poll) (h : List Poll) (w : Watch)
    → Tracks h w
    → Observed window p h (observe window p w)
unfolding observe
observe-Observed window p [] w t = record {
  stable_eq = ground arith;
  quiet_eq = ground arith;
  changed_eq = ground arith;
  complete_eq = ground arith;
  go_on = λ e. ground arith;
}
observe-Observed window p (q ∷ h) w t =
    let same = snapshot_beq_iff p.seen q.seen in
    let extend = held_since-cons p q h in
    record {
      stable_eq = ground (arith, same, extend);
      quiet_eq = ground (arith, same, extend);
      changed_eq = ground (arith, same, extend);
      complete_eq = ground (arith, same, extend);
      go_on = λ e. ground (arith, same, extend);
    }
