-- ===== src/Pipeline/Mailbox.antt =====
-- `MailboxAdapter` of testinghq/pipeline/adapters.py: an append-only file of JSON lines, read piece by piece.
-- What a line says, the tag of a record and the mapping of a record are parameters.
mod Agreed
mod Pieces
mod Examples
use testing_hq.Prelude.{
  ℕ, zero, suc, ◌+◌, ◌-◌, Bool, true, false, not, ◌&&◌, ◌||◌, Option, none, some, List, [], ◌∷◌,
  ◌++◌, map, length, take, is_empty, is_some, ltb, nat_beq, if◌then◌else◌,
}
use testing_hq.Prelude.Text.{Text, text_eq}
use testing_hq.Prelude.Dict.{Dict, lookup, insert}

-- `chunk.split(b"\n")`
abbrev first_longer : ℕ → List (List ℕ) → List (List ℕ)
first_longer b [] = (b ∷ []) ∷ []
first_longer b (line ∷ rest) = (b ∷ line) ∷ rest

unfoldable pub split_lines : List ℕ → List (List ℕ)
split_lines [] = [] ∷ []
split_lines (b ∷ bytes) =
    let rest = split_lines bytes in if nat_beq b 10 then [] ∷ rest else first_longer b rest

unfoldable pub skip_bytes : ℕ → List ℕ → List ℕ
skip_bytes zero bytes = bytes
skip_bytes (suc n) [] = []
skip_bytes (suc n) (b ∷ bytes) = skip_bytes n bytes

-- What `stat` gives: FileNotFoundError, or the identity and the time of change; the bytes give the size.
pub data File : Type 0 where
  missing : File
  present : ℕ → ℕ → List ℕ → File

-- The two AdapterErrors of a line.
pub data LineError : Type 0 where
  not_valid_json not_an_object : LineError

module _ (R : Type 0) where
  -- A line, decoded and stripped: empty, no JSON, JSON that is no object, or an object.
  pub data Line : Type 0 where
    blank no_json other_json : Line
    object : R → Line

  pub record Mailbox : Type 0 where
    pub offset : ℕ
    pub line_no : ℕ
    pub identity : Option ℕ
    pub mtime : Option ℕ
    pub records : List (Option Text × R)
    pub by_tag : Dict Text (List R)
    pub warned : Bool
    pub open_line : Bool
    pub warnings : List ℕ

abbrev pub or_nothing : {A : Type 0} → Option (List A) → List A
or_nothing none = []
or_nothing (some xs) = xs

abbrev pub tag_text : Option Text → Text
tag_text none = []
tag_text (some t) = t

module _ {R : Type 0} where
  -- `_reset`, which leaves the warnings.
  unfoldable pub reset : Mailbox R → Mailbox R
  reset m = record m {
    offset = 0;
    line_no = 0;
    identity = none;
    mtime = none;
    records = [];
    by_tag = [];
    warned = false;
    open_line = false;
  }

  -- A MailboxAdapter behind its constructor.
  abbrev pub new_mailbox : Mailbox R
  new_mailbox = record {
    offset = 0;
    line_no = 0;
    identity = none;
    mtime = none;
    records = [];
    by_tag = [];
    warned = false;
    open_line = false;
    warnings = [];
  }

  -- Whether the sink is to be read again from the start.
  unfoldable pub was_replaced : Mailbox R → ℕ → ℕ → ℕ → Bool
  was_replaced m identity mtime size =
      (elim m.identity [ none ↦ false | some i ↦ not (nat_beq identity i) ])
      || (ltb size m.offset
          || (nat_beq size m.offset
              && ((elim m.mtime [ none ↦ false | some t ↦ not (nat_beq mtime t) ])
                  && ltb 0 m.offset)))

  -- A record whose tag is not empty is indexed.
  unfoldable pub index_record : Option Text → R → Dict Text (List R) → Dict Text (List R)
  unfolding lookup insert
  index_record tag r d =
      if is_empty (tag_text tag)
      then d
      else insert (tag_text tag) (or_nothing (lookup (tag_text tag) d) ++ r ∷ []) d

  module _ (read_line : List ℕ → Line R) (tag_of : R → Option Text) (warn_lines : ℕ) where
    -- An object on a line that ends in a newline, or not.
    unfoldable pub add_record : Bool → List ℕ → R → Mailbox R → Mailbox R
    unfolding index_record
    add_record terminated line r m = record m {
      line_no = suc m.line_no;
      offset = m.offset + (length line + (if terminated then 1 else 0));
      open_line = not terminated;
      records = m.records ++ (tag_of r, r) ∷ [];
      by_tag = index_record (tag_of r) r m.by_tag;
    }

    -- A blank line that ends in a newline; `continued` says that it closes the line before it.
    unfoldable pub skip_line : Bool → List ℕ → Mailbox R → Mailbox R
    skip_line continued line m = record m {
      offset = m.offset + suc (length line);
      line_no = (if continued then m.line_no else suc m.line_no);
      open_line = false;
    }

    -- The last piece, which has no newline.
    unfoldable pub last_line : List ℕ → Mailbox R → Option LineError × Mailbox R
    unfolding add_record
    last_line line m = if is_empty line then (none, m) else elim (read_line line) [
      | blank ↦ (none, m)
      | no_json ↦ (none, m)
      | other_json ↦ (some not_an_object, m)
      | object r ↦ (none, add_record false line r m)
    ]

    -- The loop over the lines; the first of them may close an open line.
    unfoldable pub consume_lines : Bool → List (List ℕ) → Mailbox R → Option LineError × Mailbox R
    unfolding last_line skip_line add_record
    consume_lines is_first [] m = (none, m)
    consume_lines is_first (line ∷ []) m = last_line line m
    consume_lines is_first (line ∷ next ∷ rest) m = elim (read_line line) [
      | blank ↦ consume_lines false (next ∷ rest) (skip_line (m.open_line && is_first) line m)
      | no_json ↦ (some not_valid_json, m)
      | other_json ↦ (some not_an_object, m)
      | object r ↦ consume_lines false (next ∷ rest) (add_record true line r m)
    ]

    unfoldable pub warn : Mailbox R → Mailbox R
    warn m =
        if ltb warn_lines m.line_no && not m.warned
        then record m { warned = true; warnings = m.warnings ++ m.line_no ∷ [] }
        else m

    abbrev pub then_warn : Option LineError × Mailbox R → Option LineError × Mailbox R
    then_warn (none, m) = (none, warn m)
    then_warn (some e, m) = (some e, m)

    unfoldable pub consume : List ℕ → Mailbox R → Option LineError × Mailbox R
    unfolding split_lines consume_lines warn
    consume chunk m = then_warn (consume_lines true (split_lines chunk) m)

    -- `_refresh`
    unfoldable pub refresh : File → Mailbox R → Option LineError × Mailbox R
    unfolding reset was_replaced skip_bytes consume
    refresh missing m = (none, if nat_beq m.offset 0 then m else reset m)
    refresh (present identity mtime bytes) m =
        let kept = if was_replaced m identity mtime (length bytes) then reset m else m in
        let seen = record kept { identity = some identity; mtime = some mtime } in
        if nat_beq (length bytes) seen.offset
        then (none, seen)
        else consume (skip_bytes seen.offset bytes) seen

  module _ {B : Type 0} (to_readback : R → Text → B) where
    -- What `fetch` and `list_all` return behind the refresh.
    unfoldable pub fetch_found : Text → Mailbox R → List B
    unfolding lookup
    fetch_found tag m = map (λ r. to_readback r tag) (or_nothing (lookup tag m.by_tag))

    abbrev pub to_entry : Option Text × R → B
    to_entry e = to_readback e.1 (tag_text e.0)

    unfoldable pub list_found : Mailbox R → List B
    list_found m = map to_entry m.records
