-- ===== src/Tests/Exchanges.antt =====
-- A request, and a response that is not begun.
use verus_gateway.Base.{false, none, [], list_eq, nat_eq}
use verus_gateway.Base.Bytes.{lit}
use verus_gateway.Base.Int.{pos}
use verus_gateway.Observability.Metrics
use verus_gateway.Observability.Metrics.{Metrics, sample}
use verus_gateway.Http.Middleware.{Request, Writer, Handler}
use verus_gateway.Http.Server.{Arrival}

abbrev pub arrival : Arrival
arrival = record { uuid = lit "id-1"; now = 100; duration = pos 3; label_error = lit "label" }

abbrev pub request : Request
request = record {
  method = lit "GET";
  path = lit "/chains";
  request_uri = lit "/chains";
  remote_addr = lit "10.0.0.1";
  content_length = pos 0;
  tls = false;
  headers = λ name. [];
  request_id = none;
  deadline = none;
  body_limits = [];
}

abbrev pub untouched : Writer
untouched = record {
  headers = [];
  sent = none;
  last_status = none;
  body = [];
  log = [];
  metrics = Metrics.new (lit "gateway");
}

abbrev pub same : Handler → Handler
same next = next
