-- ===== src/TransportRedfish/Probes.antt =====
-- The reachability probes of RedfishClient (jobs/transport_redfish.py): `_error_message`, `probe_get`,
-- `ping`, `probe_hint`. Python's str of a value that is no string is a parameter.
use nautobot_testsuite.Base.{
  ℕ, Bool, true, false, ◌&&◌, ◌||◌, not, Option, none, some, [], ◌++◌, leb, ltb, ◌==◌,
  if◌then◌else◌, Text, codes, is_empty, digits, has_substring,
}
use nautobot_testsuite.Numeric.{Numeric}
use nautobot_testsuite.DiffCore.Values.{
  Value, null, bool, num, text, arr, obj, nil, cons, Fields, end, field, field?,
}
use nautobot_testsuite.DiffCore.TextValues.{line_text}
use nautobot_testsuite.TransportRedfish.Records.{
  Response, response, request_exception, error_text, default_tls, legacy_tls, Probe, Client,
  Network,
}
use nautobot_testsuite.TransportRedfish.Client.{Sending, answered, not_sent, send_get}

-- The error of a record, "" where it has none.
unfoldable pub error_of : Probe → Text
error_of record' = elim record'.error [ none ↦ [] | some e ↦ e ]

-- _is_tls_failure (jobs/transport_restconf.py)
unfoldable pub is_tls_failure : Probe → Bool
unfolding error_of has_substring
is_tls_failure record' =
    has_substring (codes "SSL") (error_of record') || has_substring (codes "TLS") (error_of record')

unfoldable pub status_hint : ℕ → Text
unfolding digits
status_hint status =
    if status == 401
    then codes "HTTP 401 — credentials rejected; check the BMC's Secrets Group values."
    else if status == 403
    then codes
        "HTTP 403 — authenticated but not authorized; the BMC account needs at least a ReadOnly role and Redfish access enabled."
    else if status == 404
    then codes
        "HTTP 404 — HTTPS answers but /redfish/v1/Systems is absent; this is not a Redfish BMC (or its Redfish service is disabled)."
    else codes "HTTP " ++ digits status ++ codes " from the BMC."

unfoldable pub no_response : Text → Text
no_response error =
    codes "No HTTP response — TCP connectivity problem: "
    ++ (if is_empty error then codes "unknown" else error)

unfoldable pub status_text : Option ℕ → Text
unfolding digits
status_text none = codes "None"
status_text (some status) = digits status

-- probe_hint
unfoldable pub probe_hint : Probe → Text
unfolding is_tls_failure error_of status_hint no_response status_text has_substring
probe_hint record' =
    let message_id : Text = elim record'.message_id [ none ↦ [] | some m ↦ m ] in
    if is_tls_failure record'
    then codes
        "TLS handshake refused by the BMC (default and legacy TLS both tried). Check the BMC's HTTPS certificate and TLS settings (on an XCC: BMC Configuration > Security in its web UI)."
    else if has_substring (codes "PasswordChangeRequired") message_id
    then codes "HTTP "
      ++ status_text record'.status
      ++ codes " "
      ++ message_id
      ++ codes
          " — the account's first-login password change is pending; complete it once in the BMC web UI (the suite never writes to a BMC), then re-run."
    else elim record'.status [
      | none ↦ no_response (error_of record')
      | some status ↦ status_hint status
    ]

-- 200 <= status < 300
unfoldable pub is_success : Option ℕ → Bool
is_success none = false
is_success (some status) = leb 200 status && ltb status 300

module _ (n : Numeric) (str : Value n.Number → Text) where
  open n use {Number, num_eq, of_ℕ}

  -- bool(value)
  unfoldable pub is_truthy : Value Number → Bool
  is_truthy null = false
  is_truthy (bool b) = b
  is_truthy (num x) = not (num_eq x (of_ℕ 0))
  is_truthy (text s) = not (is_empty s)
  is_truthy (arr items) = elim items [ nil ↦ false | cons v vs ↦ true ]
  is_truthy (obj fs) = elim fs [ end ↦ false | field k v gs ↦ true ]

  -- fields.get(key)
  unfoldable pub get_or_null : Text → Fields Number → Value Number
  unfolding field?
  get_or_null key fs = elim (field? key fs) [ none ↦ null | some v ↦ v ]

  -- infos[0] if it is a dict of a list that is not empty, else {}
  unfoldable pub first_info : Value Number → Fields Number
  first_info (arr items) = elim items [ nil ↦ end | cons v vs ↦ elim v [ obj fs ↦ fs | _ ↦ end ] ]
  first_info _ = end

  -- str(value) if value is not None else None
  unfoldable pub text_or_none : Value Number → Option Text
  unfolding line_text
  text_or_none null = none
  text_or_none value = some (line_text str value)

  unfoldable pub message_of : Fields Number → Option Text × Option Text
  unfolding get_or_null first_info is_truthy text_or_none
  message_of error =
      let first = first_info (get_or_null (codes "@Message.ExtendedInfo") error) in
      let id = get_or_null (codes "MessageId") first in
      let message = get_or_null (codes "Message") first in
      (
        text_or_none (if is_truthy id then id else get_or_null (codes "code") error),
        text_or_none (if is_truthy message then message else get_or_null (codes "message") error),
      )

  -- _error_message
  unfoldable pub error_message : Response Number → Option Text × Option Text
  unfolding get_or_null message_of
  error_message r = elim r.body [
    | none ↦ (none, none)
    | some value ↦ elim value [
      | obj fs ↦ elim (get_or_null (codes "error") fs) [
        | obj error ↦ message_of error
        | _ ↦ (none, none)
      ]
      | _ ↦ (none, none)
    ]
  ]

  module _ (repr : Text → Text) (net : Network Number) where
    blank : Text → Probe
    blank path = record {
      path = path;
      status = none;
      elapsed_ms = none;
      content_bytes = 0;
      error = none;
      message_id = none;
      message = none;
    }

    -- The record of a response.
    unfoldable pub recorded : Text → Response Number → Probe
    unfolding blank error_message
    recorded path r =
        let (message_id, message) = error_message r in
        record {
          path = path;
          status = some r.status_code;
          elapsed_ms = some r.elapsed_ms;
          content_bytes = r.size;
          error = none;
          message_id = if r.is_ok then none else message_id;
          message = if r.is_ok then none else message;
        }

    unfoldable pub evidence : Text → Sending Number → Probe
    unfolding blank recorded error_text
    evidence path (not_sent e) = record (blank path) { error = some (error_text repr e) }
    evidence path (answered (request_exception why)) = record (blank path) { error = some why }
    evidence path (answered (response r)) = recorded path r

    -- probe_get
    unfoldable pub probe_get : Text → Bool → Client → Probe × Client
    probe_get path anonymous c =
        let (sending, after) = send_get net path anonymous c in (evidence path sending, after)

    -- self.last_probe = record
    unfoldable pub noting : Probe × Client → Probe × Client
    noting (record', c) = (record', record c { last_probe = some record' })

    -- What follows the answer of the service root, and that of the systems.
    unfoldable pub after_systems : Probe × Client → Bool × Probe × Client
    after_systems (systems, c) = (is_success systems.status, systems, c)

    unfoldable pub after_root : Text → Probe × Client → Bool × Probe × Client
    after_root systems_path (root, c) =
        let systems = after_systems (noting (probe_get systems_path false c)) in
        if not (is_success root.status) then (false, root, c) else systems

    -- _probe_all
    unfoldable pub probe_all : Client → Bool × Probe × Client
    probe_all c =
        after_root (codes "/redfish/v1/Systems") (noting (probe_get (codes "/redfish/v1/") true c))

    -- enable_legacy_tls
    unfoldable pub enable_legacy_tls : Client → Client
    enable_legacy_tls c = record c { tls_mode = legacy_tls }

    unfoldable pub retries : Client → Probe → Bool
    unfolding is_tls_failure
    retries c record' =
        not c.verify
        && (elim c.tls_mode [ default_tls ↦ true | legacy_tls ↦ false ])
        && is_tls_failure record'

    -- What ping does behind the first probes.
    unfoldable pub retried : Bool × Probe × Client → Bool × Client
    retried (ok, record', c) =
        let (ok', last, behind) = probe_all (enable_legacy_tls c) in
        if ok then (true, c) else if retries c record' then (ok', behind) else (false, c)

    -- ping
    unfoldable pub ping : Client → Bool × Client
    ping c = retried (probe_all c)
