-- ===== src/TransportRestconf.antt =====
-- jobs/transport_restconf.py: the client of a device's RESTCONF server. The HTTP library is a parameter.
use nautobot_testsuite.Base.{
  ℕ, Bool, true, false, ◌&&◌, not, none, some, List, ◌∷◌, ◌++◌, ◌==◌, if◌then◌else◌, Text, codes,
  is_empty, digits,
}
use nautobot_testsuite.DiffCore.Values.{Value, obj, end}
use nautobot_testsuite.TransportRedfish.Records.{
  Response, Answer, response, request_exception, TlsMode, default_tls, legacy_tls, Probe,
}
use nautobot_testsuite.TransportRedfish.Probes.{is_tls_failure, error_of, is_success}

-- A RestconfError, with what its message shows; its status code is the second argument where it has one.
pub data RestconfError : Type 0 where
  get_failed : Text → Text → RestconfError
  not_found : Text → RestconfError
  http_status : Text → ℕ → RestconfError
  non_json_body : Text → ℕ → ℕ → RestconfError

pub data Fetched (N : Type 0) : Type 0 where
  returned : Value N → Fetched N
  absent : Fetched N
  raised : RestconfError → Fetched N

-- A GET behind the base URL, and the TLS mode it goes with.
pub record Request : Type 0 where
  pub path : Text
  pub tls : TlsMode

pub record Client : Type 0 where
  pub verify : Bool
  pub tls_mode : TlsMode
  pub sent : List Request

unfoldable pub status_hint : ℕ → Text
unfolding digits
status_hint status =
    if status == 401
    then codes "HTTP 401 — credentials rejected; check the Secrets Group values."
    else if status == 403
    then codes "HTTP 403 — authenticated but not authorized; RESTCONF requires privilege 15."
    else if status == 404
    then codes
        "HTTP 404 — HTTPS is up but the DMI is not serving this data. If RESTCONF was enabled recently, `show platform software yang-management process` should show every process Running."
    else codes "HTTP " ++ digits status ++ codes " from the device."

-- probe_hint
unfoldable pub probe_hint : Probe → Text
unfolding is_tls_failure error_of status_hint is_empty
probe_hint record' =
    if is_tls_failure record'
    then codes
        "TLS handshake refused by the device (default and legacy TLS both tried). On the switch check `show ip http server secure status` and `show crypto pki trustpoints` — a missing or broken self-signed certificate is the classic cause (bounce `ip http secure-server` to regenerate it); a pinned `ip http tls-version` or restricted `ip http secure-ciphersuite` is the other."
    else elim record'.status [
      | none ↦
          codes "No HTTP response — TCP connectivity problem: "
          ++ (if is_empty (error_of record') then codes "unknown" else error_of record')
      | some status ↦ status_hint status
    ]

module _ {N : Type 0} (answer : List Request → Request → Answer N) where
  -- session.get
  unfoldable pub send : Text → Client → Answer N × Client
  send path c =
      let request : Request = record { path = path; tls = c.tls_mode } in
      (answer c.sent request, record c { sent = request ∷ c.sent })

  unfoldable pub read_response : Text → Bool → Response N → Fetched N
  read_response path ok_404 r =
      if r.status_code == 404
      then if ok_404 then absent else raised (not_found path)
      else if not r.is_ok
      then raised (http_status path r.status_code)
      else if (if r.status_code == 204 then true else r.size == 0)
      then returned (obj end)
      else elim r.body [
        | none ↦ raised (non_json_body path r.size r.status_code)
        | some value ↦ returned value
      ]

  unfoldable pub read_answer : Text → Bool → Answer N → Fetched N
  unfolding read_response
  read_answer path ok_404 (request_exception why) = raised (get_failed path why)
  read_answer path ok_404 (response r) = read_response path ok_404 r

  -- get
  unfoldable pub get : Text → Bool → Client → Fetched N × Client
  unfolding send read_answer
  get path ok_404 c = let (a, after) = send path c in (read_answer path ok_404 a, after)

  -- The record of probe_get; it has no message of the device.
  unfoldable pub evidence : Text → Answer N → Probe
  evidence path (request_exception why) = record {
    path = path;
    status = none;
    elapsed_ms = none;
    content_bytes = 0;
    error = some why;
    message_id = none;
    message = none;
  }
  evidence path (response r) = record {
    path = path;
    status = some r.status_code;
    elapsed_ms = some r.elapsed_ms;
    content_bytes = r.size;
    error = none;
    message_id = none;
    message = none;
  }

  -- probe_get
  unfoldable pub probe_get : Text → Client → Probe × Client
  unfolding send evidence
  probe_get path c = let (a, after) = send path c in (evidence path a, after)

  -- _probe_all on the two paths: the second is asked when the first does not answer with a success.
  unfoldable pub probe_both : Text → Text → Client → Bool × Probe × Client
  unfolding probe_get is_success
  probe_both first second c =
      let (system, after) = probe_get first c in
      let (library, behind) = probe_get second after in
      if is_success system.status
      then (true, system, after)
      else (is_success library.status, library, behind)

  -- enable_legacy_tls
  unfoldable pub enable_legacy_tls : Client → Client
  enable_legacy_tls c = record c { tls_mode = legacy_tls }

  unfoldable pub retries : Client → Probe → Bool
  unfolding is_tls_failure
  retries c record' =
      not c.verify
      && (elim c.tls_mode [ default_tls ↦ true | legacy_tls ↦ false ])
      && is_tls_failure record'

  -- ping, on the two paths
  unfoldable pub ping : Text → Text → Client → Bool × Client
  unfolding probe_both retries enable_legacy_tls
  ping first second c =
      let (ok, record', after) = probe_both first second c in
      let (ok', last, behind) = probe_both first second (enable_legacy_tls after) in
      if ok then (true, after) else if retries after record' then (ok', behind) else (false, after)
