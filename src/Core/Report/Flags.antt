-- ===== src/Core/Report/Flags.antt =====
-- The flag lines of testinghq/core/report.py: why a request got no response, and the text of the
-- flag of one record.
use testing_hq.Prelude.{ℕ, ◌||◌, Option, none, some, List, [], ◌∷◌, ◌++◌, any, if◌then◌else◌}
use testing_hq.Prelude.Text.{Text, codes, has_infix, text_beq}
use testing_hq.Prelude.Decimal.{decimal}
use testing_hq.Core.Report.{
  Response, Record, response_of, status_of, Outcome, clean_failed, body_failed, classify_record,
  is_flagged,
}
use testing_hq.Core.Report.Kinds.{label, ErrorKind, refused, dns, timeout, tls, other_error}

abbrev dns_markers : List Text
dns_markers =
    codes "name or service not known"
    ∷ codes "nodename nor servname"
    ∷ codes "getaddrinfo"
    ∷ codes "name resolution"
    ∷ codes "no address associated"
    ∷ codes "[errno -2]"
    ∷ codes "[errno -3]"
    ∷ codes "[errno -5]"
    ∷ codes "[errno 11001]"
    ∷ codes "[errno 8]"
    ∷ []

-- A falsy message, None or empty, as `x or ""` reads it.
abbrev or_empty : Option Text → Text
or_empty none = []
or_empty (some t) = t

-- kind in TRANSPORT_ERROR_KINDS
kind_named : Text → Option ErrorKind
kind_named t =
    if text_beq t (codes "refused")
    then some refused
    else if text_beq t (codes "dns")
    then some dns
    else if text_beq t (codes "timeout")
    then some timeout
    else if text_beq t (codes "tls")
    then some tls
    else if text_beq t (codes "other")
    then some other_error
    else none

abbrev recorded_kind : Option Text → Option ErrorKind
recorded_kind none = none
recorded_kind (some t) = kind_named t

-- `f"{rid}"`
abbrev show_id : Option Text → Text
show_id none = codes "None"
show_id (some t) = t

abbrev show_status : Option ℕ → Text
show_status none = codes "None"
show_status (some s) = decimal s

module _ (lower : Text → Text) where
  pub transport_error_kind : Option Text → ErrorKind
  transport_error_kind error =
      let text = lower (or_empty error) in
      if has_infix (codes "timed out") text || has_infix (codes "timeout") text
      then timeout
      else if has_infix (codes "refused") text
      then refused
      else if any (λ marker. has_infix marker text) dns_markers
      then dns
      else if has_infix (codes "ssl") text
          || (has_infix (codes "tls") text || has_infix (codes "certificate") text)
      then tls
      else other_error

  error_kind_from : Option ErrorKind → Text → ErrorKind
  unfolding transport_error_kind
  error_kind_from (some kind) error = kind
  error_kind_from none [] = timeout
  error_kind_from none (c ∷ error) = transport_error_kind (some (c ∷ error))

  -- `_error_kind`
  pub error_kind : Response → ErrorKind
  unfolding kind_named error_kind_from
  error_kind r = error_kind_from (recorded_kind r.error_kind) (or_empty r.error)

  or_no_response : Text → Text
  or_no_response [] = codes "no response"
  or_no_response (c ∷ t) = c ∷ t

  reason_for : ErrorKind → Text → Text
  unfolding or_no_response
  reason_for refused error = codes "got no response: connection refused"
  reason_for dns error = codes "got no response: DNS lookup failed"
  reason_for timeout error = codes "timed out"
  reason_for tls error = codes "got no response: TLS handshake failed"
  reason_for other_error error = codes "got no response: " ++ or_no_response error

  pub no_response_reason : Response → Text
  unfolding error_kind reason_for
  no_response_reason r = reason_for (error_kind r) (or_empty r.error)

  unfoldable pub flag_text : Outcome → Record → Option ℕ → Text
  unfolding no_response_reason
  flag_text clean_failed r none =
      codes "clean payload "
      ++ (show_id r.id ++ (codes " did not 2xx: " ++ no_response_reason (response_of r)))
  flag_text clean_failed r (some s) =
      codes "clean payload " ++ (show_id r.id ++ codes " did not 2xx")
  flag_text body_failed r status =
      label r.category
      ++ (codes " "
          ++ (show_id r.id
              ++ (codes " returned " ++ (show_status status ++ codes " with a failure body"))))
  flag_text outcome r none =
      label r.category
      ++ (codes " " ++ (show_id r.id ++ (codes " " ++ no_response_reason (response_of r))))
  flag_text outcome r (some s) =
      label r.category ++ (codes " " ++ (show_id r.id ++ (codes " returned " ++ decimal s)))

  unfoldable pub flag_for_record : Record → Option Text
  unfolding flag_text classify_record
  flag_for_record r =
      let outcome = classify_record r in
      if is_flagged outcome then some (flag_text outcome r (status_of r)) else none
